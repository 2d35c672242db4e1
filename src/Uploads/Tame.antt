-- ===== src/Uploads/Tame.antt =====
-- The edits of services/tusupload/service.go on the rows of sessions: none raises what a row holds of
-- its user's quota, and none leaves a row that is neither deleted nor in an active status.
use videocms.Base.{
  ℕ, ◌≤◌, ◌≡◌, refl, ◌⊎◌, inl, inr, Bool, true, String, List, arith, if◌then◌else◌, update_where,
  sum_of, sum_of-select, sum_of-update_where, All, All-update_where, Bool-cases,
}
use videocms.Media.{UploadSession, UploadStatus, Link, Store}
use videocms.Sharing.Capacity.{is_active}
use videocms.Uploads.Tools.{EventInfo}
use videocms.Uploads.Limits.{pending_storage, is_active_of}
use videocms.Uploads.Events.{advance, complete, end_session}
use videocms.Uploads.Finalize.{begin_import, fail, finish}

-- A row that is not deleted is in an active status.
abbrev pub IsKept : UploadSession → Type 0
IsKept s = (s.deleted ≡ true) ⊎ (is_active s.status ≡ true)

-- What a row holds of the user's quota.
abbrev pub weight : ℕ → UploadSession → ℕ
weight user_id s = if is_active_of user_id s then s.quota_bytes else 0

pub pending_storage-weight :
    (user_id : ℕ) (store : Store)
    → pending_storage user_id store ≡ sum_of (weight user_id) store.sessions
unfolding pending_storage
pending_storage-weight user_id store =
    sum_of-select (λ (s : UploadSession). s.quota_bytes) (is_active_of user_id) store.sessions

-- An edit that keeps a row's user, quota and size, and does not bring a deleted row back.
pub record IsTame (f : UploadSession → UploadSession) : Type 0 where
  pub user : (s : UploadSession) → (f s).user_id ≡ s.user_id
  pub quota : (s : UploadSession) → (f s).quota_bytes ≡ s.quota_bytes
  pub size : (s : UploadSession) → (f s).size ≡ s.size
  pub kept : (s : UploadSession) → IsKept s → IsKept (f s)
  pub gone : (s : UploadSession) → s.deleted ≡ true → (f s).deleted ≡ true

weight-IsTame :
    (user_id : ℕ) (f : UploadSession → UploadSession)
    → IsTame f
    → (s : UploadSession) → IsKept s
    → weight user_id (f s) ≤ weight user_id s
unfolding is_active_of
weight-IsTame user_id f tame s (inl deleted) = ground (arith, tame.gone s deleted)
weight-IsTame user_id f tame s (inr active) = elim (Bool-cases (f s).deleted) [
  | inl off ↦ ground (arith, off)
  | inr live ↦ elim (Bool-cases s.deleted) [
    | inl was ↦ ground (arith, tame.gone s was)
    | inr on ↦ ground (arith, tame.user s, tame.quota s, active, on)
  ]
]

module _ (user_id : ℕ) (p : UploadSession → Bool) (f : UploadSession → UploadSession)
    (tame : IsTame f) where
  pub IsKept-update_where :
      (sessions : List UploadSession) → All IsKept sessions → All IsKept (update_where p f sessions)
  IsKept-update_where sessions h =
      All-update_where {P = IsKept} {Q = IsKept} p f (λ s k _. tame.kept s k) (λ s k _. k) sessions
        h

  pub weight-update_where :
      (sessions : List UploadSession)
      → All IsKept sessions
      → sum_of (weight user_id) (update_where p f sessions) ≤ sum_of (weight user_id) sessions
  weight-update_where sessions h =
      sum_of-update_where IsKept (weight user_id) p f (λ s k _. weight-IsTame user_id f tame s k)
        sessions h

pub advance-IsTame : (info : EventInfo) → IsTame (advance info)
unfolding advance is_active
advance-IsTame info = record {
  user = λ s. refl;
  quota = λ s. refl;
  size = λ s. refl;
  kept = λ s k. ground (arith, k);
  gone = λ s d. d;
}

pub complete-IsTame : (now : ℕ) (info : EventInfo) → IsTame (complete now info)
unfolding complete is_active
complete-IsTame now info = record {
  user = λ s. refl;
  quota = λ s. refl;
  size = λ s. refl;
  kept = λ s k. inr refl;
  gone = λ s d. d;
}

pub end_session-IsTame : (now : ℕ) (status : UploadStatus) → IsTame (end_session now status)
unfolding end_session
end_session-IsTame now status = record {
  user = λ s. refl;
  quota = λ s. refl;
  size = λ s. refl;
  kept = λ s k. inl refl;
  gone = λ s d. refl;
}

pub begin_import-IsTame : IsTame begin_import
unfolding begin_import is_active
begin_import-IsTame = record {
  user = λ s. refl;
  quota = λ s. refl;
  size = λ s. refl;
  kept = λ s k. inr refl;
  gone = λ s d. d;
}

pub fail-IsTame : (message : String) → IsTame (fail message)
unfolding fail is_active
fail-IsTame message = record {
  user = λ s. refl;
  quota = λ s. refl;
  size = λ s. refl;
  kept = λ s k. inr refl;
  gone = λ s d. d;
}

pub finish-IsTame : (now : ℕ) (link : Link) → IsTame (finish now link)
unfolding finish
finish-IsTame now link = record {
  user = λ s. refl;
  quota = λ s. refl;
  size = λ s. refl;
  kept = λ s k. inl refl;
  gone = λ s d. refl;
}

-- A row holds at most its reservation, and only of its own user's quota.
pub weight-cases :
    (user_id : ℕ) (s : UploadSession)
    → (weight user_id s ≡ 0) ⊎ ((s.user_id ≡ user_id) × (weight user_id s ≤ s.quota_bytes))
unfolding is_active_of
weight-cases user_id s = elim (Bool-cases (is_active_of user_id s)) [
  | inl on ↦ inr (ground (arith, on), ground (arith, on))
  | inr off ↦ inl (ground (arith, off))
]
