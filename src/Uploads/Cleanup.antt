-- ===== src/Uploads/Cleanup.antt =====
-- CleanupExpiredOnceE of services/tusupload/service.go: what a pass leaves.
use videocms.Base.{
  ℕ, ◌≡◌, refl, ap, subst, inl, inr, Bool, true, false, String, List, [], ◌∷◌, arith, ◌==◌, ltb,
  count_where, select, update_where, All, All-map, All-update_where, Bool-cases,
}
use videocms.Media.{UploadSession, UploadStatus, Store, has_session_id, update_session}
use videocms.Uploads.Events.{end_session}
use videocms.Uploads.Expiry.{
  is_due_for_cleanup, is_stuck, expire_session, expire_all, cleanup_expired_once,
}

-- Whether one of the rows has the identifier.
abbrev is_listed : List UploadSession → ℕ → Bool
is_listed rows id = ltb 0 (count_where (λ (s : UploadSession). s.id == id) rows)

-- The rows that are due are among those left to do.
abbrev AreListed : ℕ → List UploadSession → List UploadSession → Type 0
AreListed now rows = All (λ s. is_due_for_cleanup now s ≡ true → is_listed rows s.id ≡ true)

select-AreListed :
    (now : ℕ) (sessions : List UploadSession)
    → AreListed now (select (is_due_for_cleanup now) sessions) sessions
unfolding select count_where
select-AreListed now [] = tt
select-AreListed now (s ∷ rest) = (
  first_listed,
  All-map
      {P = λ r.
        is_due_for_cleanup now r ≡ true
        → is_listed (select (is_due_for_cleanup now) rest) r.id ≡ true}
      {Q = λ r.
        is_due_for_cleanup now r ≡ true
        → is_listed (select (is_due_for_cleanup now) (s ∷ rest)) r.id ≡ true}
      (λ r h due. later r (h due)) rest (select-AreListed now rest),
)
  where
    first_listed :
        is_due_for_cleanup now s ≡ true
        → is_listed (select (is_due_for_cleanup now) (s ∷ rest)) s.id ≡ true
    first_listed due = rw due (ground arith)

    later :
        (r : UploadSession)
        → is_listed (select (is_due_for_cleanup now) rest) r.id ≡ true
        → is_listed (select (is_due_for_cleanup now) (s ∷ rest)) r.id ≡ true
    later r h = elim (Bool-cases (is_due_for_cleanup now s)) [
      | inl due ↦ rw due (ground (arith, h))
      | inr other ↦ rw other h
    ]

-- A row that is ended is not due any more, and every due row of its identifier is ended.
expired-AreListed :
    (now : ℕ) (s : UploadSession) (rest sessions : List UploadSession)
    → AreListed now (s ∷ rest) sessions
    → AreListed now rest
        (update_where (has_session_id s.id) (end_session now UploadStatus.expired) sessions)
expired-AreListed now s rest sessions h =
    All-update_where {P = λ r. is_due_for_cleanup now r ≡ true → is_listed (s ∷ rest) r.id ≡ true}
      {Q = λ r. is_due_for_cleanup now r ≡ true → is_listed rest r.id ≡ true} (has_session_id s.id)
      (end_session now UploadStatus.expired) hit miss sessions h
  where
    hit :
        (r : UploadSession)
        → (is_due_for_cleanup now r ≡ true → is_listed (s ∷ rest) r.id ≡ true)
        → has_session_id s.id r ≡ true
        → let r' = end_session now UploadStatus.expired r in
          is_due_for_cleanup now r' ≡ true → is_listed rest r'.id ≡ true
    hit r _ _ due = absurd (unfold is_due_for_cleanup end_session in ground (arith, due))

    miss :
        (r : UploadSession)
        → (is_due_for_cleanup now r ≡ true → is_listed (s ∷ rest) r.id ≡ true)
        → has_session_id s.id r ≡ false
        → is_due_for_cleanup now r ≡ true
        → is_listed rest r.id ≡ true
    miss r listed other due =
        unfold count_where is_due_for_cleanup in ground (arith, listed due, other, due)

expire_session-done :
    (stuck : String → Bool) (now : ℕ) (s : UploadSession) (store : Store)
    → (expire_session stuck now s store).1 ≡ false
    → (expire_session stuck now s store).0.sessions
      ≡ update_where (has_session_id s.id) (end_session now UploadStatus.expired) store.sessions
unfolding expire_session update_session
expire_session-done stuck now s store ok = elim (Bool-cases (is_stuck stuck s)) [
  | inl failed ↦ absurd (ground (arith, ok, failed))
  | inr free ↦ rw (expire_session, free) refl
]

expire_all-AreListed :
    (stuck : String → Bool) (now : ℕ) (rows : List UploadSession) (store : Store)
    → (expire_all stuck now rows store).1 ≡ false
    → AreListed now rows store.sessions
    → AreListed now [] (expire_all stuck now rows store).0.sessions
unfolding expire_all
expire_all-AreListed stuck now [] store ok h = h
expire_all-AreListed stuck now (s ∷ rest) store ok h =
    let store' = (expire_session stuck now s store).0 in
    let first_ok : (expire_session stuck now s store).1 ≡ false = ground (arith, ok) in
    let rest_ok : (expire_all stuck now rest store').1 ≡ false = ground (arith, ok) in
    expire_all-AreListed stuck now rest store' rest_ok (
      rw (expire_session-done stuck now s store first_ok)
        (expired-AreListed now s rest store.sessions h))

-- If a pass of the clean-up reports no error, then no live upload in an active status is left that was
-- past its expiry at the time of the pass.
pub cleanup_expired_once_lem :
    (stuck : String → Bool) (now : ℕ) (store : Store) {store' : Store}
    → cleanup_expired_once stuck now store ≡ (store', false)
    → All (λ s. is_due_for_cleanup now s ≡ false) store'.sessions
unfolding cleanup_expired_once
cleanup_expired_once_lem stuck now store {store'} e =
    let rows = select (is_due_for_cleanup now) store.sessions in
    let left =
      expire_all-AreListed stuck now rows store (ap (λ (r : Store × Bool). r.1) e)
        (select-AreListed now store.sessions) in
    All-map {P = λ s. is_due_for_cleanup now s ≡ true → is_listed [] s.id ≡ true}
      {Q = λ s. is_due_for_cleanup now s ≡ false} none_due store'.sessions
      (subst (λ (r : Store × Bool). AreListed now [] r.0.sessions) e left)
  where
    none_due :
        (s : UploadSession)
        → (is_due_for_cleanup now s ≡ true → is_listed [] s.id ≡ true)
        → is_due_for_cleanup now s ≡ false
    none_due s h = elim (Bool-cases (is_due_for_cleanup now s)) [
      | inl due ↦ absurd (unfold count_where in ground (arith, h due))
      | inr fine ↦ fine
    ]
