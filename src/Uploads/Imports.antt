-- ===== src/Uploads/Imports.antt =====
-- The storage quota over an import: what the new video uses, its upload group no longer holds.
use videocms.Base.{
  ℕ, ◌+◌, ◌≤◌, ◌<◌, ◌≡◌, refl, sym, ap, subst, ◌∙◌, inl, inr, ◌≢◌, Bool, false, not, ◌&&◌, some,
  String, List, [], ◌∷◌, ◌++◌, arith, ◌==◌, first, select, update_where, sum_of, sum_of-select, All,
  All-update_where, Bool-cases, if◌then◌else◌, add64_small, gt64_small, int64_limit,
}
use videocms.Media.{UploadSession, User, File, Link, Store, accept}
use videocms.Uploads.Limits.{is_active_of, used_storage, pending_storage, linked_bytes}
use videocms.Uploads.Finalize.{complete_finalize, finish, of_group}
use videocms.Uploads.Tame.{
  weight, pending_storage-weight, finish-IsTame, weight-update_where, IsKept-update_where,
}
use videocms.Uploads.Within.{IsWithin, used_storage-same}
use videocms.Uploads.Videos.{is_outside, pending_outside, check_quota_outside}

-- What a row outside the group holds.
abbrev owed : ℕ → String → UploadSession → ℕ
owed user_id group s = if is_outside user_id group s then s.quota_bytes else 0

pending_outside-owed :
    (user_id : ℕ) (group : String) (store : Store)
    → pending_outside user_id group store ≡ sum_of (owed user_id group) store.sessions
unfolding pending_outside
pending_outside-owed user_id group store =
    sum_of-select (λ (s : UploadSession). s.quota_bytes) (is_outside user_id group) store.sessions

owed-weight :
    (user_id : ℕ) (group : String) (sessions : List UploadSession)
    → sum_of (owed user_id group) sessions ≤ sum_of (weight user_id) sessions
unfolding sum_of is_outside
owed-weight user_id group [] = omega arith
owed-weight user_id group (s ∷ rest) = ground (arith, owed-weight user_id group rest)

-- The rows of the group hold nothing once they are finished.
finish-owed :
    (session : UploadSession) (now : ℕ) (link : Link) (sessions : List UploadSession)
    → sum_of (weight session.user_id) (update_where (of_group session) (finish now link) sessions)
      ≤ sum_of (owed session.user_id session.client_upload_uuid) sessions
unfolding sum_of update_where is_outside is_active_of of_group finish
finish-owed session now link [] = omega arith
finish-owed session now link (s ∷ rest) = ground (arith, finish-owed session now link rest)

module _ (user_id additional : ℕ) (group : String) (store : Store) {user : User}
    (found : first (λ (u : User). u.id == user_id) store.users ≡ some user)
    (limited : user.storage ≢ 0) (below : user.storage < int64_limit) where
  pub check_quota_outside-le :
      used_storage user_id store + pending_outside user_id group store + additional < int64_limit
      → check_quota_outside user_id additional group store ≡ accept tt
      → used_storage user_id store + pending_outside user_id group store + additional ≤ user.storage
  unfolding check_quota_outside
  check_quota_outside-le fits passed =
      let used = used_storage user_id store in
      let pending = pending_outside user_id group store in
      let sum = used + pending + additional in
      let sums = add64_small used pending (omega arith) in
      ground (
        arith,
        found,
        passed,
        sums,
        add64_small (used + pending) additional fits,
        gt64_small sum user.storage fits below,
      )

-- What the links of a user hold, with one more.
abbrev pub of_user : ℕ → Link → Bool
of_user user_id l = l.user_id == user_id && not l.deleted

pub used_storage-append :
    (user_id : ℕ) (store mid : Store) (link : Link)
    → mid.links ≡ store.links ++ link ∷ []
    → All
        (λ (l : Link). linked_bytes mid.files l.file_id ≡ linked_bytes store.files l.file_id)
        store.links
    → used_storage user_id mid
      ≡ used_storage user_id store
        + (if of_user user_id link then linked_bytes mid.files link.file_id else 0)
unfolding used_storage
used_storage-append user_id store mid link grown same = rw grown (appended store.links same)
  where
    appended :
        (links : List Link)
        → All
            (λ (l : Link). linked_bytes mid.files l.file_id ≡ linked_bytes store.files l.file_id)
            links
        → sum_of
            (λ (l : Link). linked_bytes mid.files l.file_id)
            (select (of_user user_id) (links ++ link ∷ []))
          ≡ sum_of
              (λ (l : Link). linked_bytes store.files l.file_id)
              (select (of_user user_id) links)
            + (if of_user user_id link then linked_bytes mid.files link.file_id else 0)
    appended [] h = unfold sum_of select in ground arith
    appended (l ∷ rest) h =
        let ih = appended rest h.1 in unfold sum_of select in ground (arith, h.0, ih)

-- The files with one more, of a new identifier.
pub linked_bytes-append :
    (files : List File) (file : File) (id : ℕ)
    → linked_bytes (files ++ file ∷ []) id
      ≡ linked_bytes files id + (if file.id == id then file.size else 0)
unfolding linked_bytes
linked_bytes-append files file id = appended files
  where
    appended :
        (fs : List File)
        → sum_of (λ (f : File). f.size) (select (λ (f : File). f.id == id) (fs ++ file ∷ []))
          ≡ sum_of (λ (f : File). f.size) (select (λ (f : File). f.id == id) fs)
            + (if file.id == id then file.size else 0)
    appended [] = unfold sum_of select in ground arith
    appended (f ∷ fs) = let ih = appended fs in unfold sum_of select in ground (arith, ih)

-- The tables after the new link, and then after completeFinalize.
pub imported-IsWithin :
    {limit : ℕ} {user : User} (stuck : String → Bool) (now : ℕ) (session : UploadSession)
    (link : Link) (bytes : ℕ) (store mid : Store)
    → user.storage ≢ 0
    → user.storage + limit < int64_limit
    → bytes ≤ limit
    → mid.users ≡ store.users
    → mid.sessions ≡ store.sessions
    → link.user_id ≡ session.user_id
    → link.deleted ≡ false
    → used_storage user.id mid
      ≡ used_storage user.id store + (if of_user user.id link then bytes else 0)
    → check_quota_outside session.user_id bytes session.client_upload_uuid store ≡ accept tt
    → IsWithin limit user store
    → IsWithin limit user (complete_finalize stuck now session link mid)
imported-IsWithin {limit} {user} stuck now session link bytes store mid stored small bounded users
      sessions owner live uses passed h =
    let after = complete_finalize stuck now session link mid in
    let p = of_group session in
    let f = finish now link in
    let tame = finish-IsTame now link in
    let rows : after.sessions ≡ update_where p f store.sessions =
      unfold complete_finalize in ap (update_where p f) sessions in
    let lower = weight-update_where user.id p f tame store.sessions h.kept in
    let used : used_storage user.id after ≡ used_storage user.id mid =
      used_storage-same user.id mid after (unfold complete_finalize in refl)
        (unfold complete_finalize in refl) in
    let pending : pending_storage user.id after
        ≡ sum_of (weight user.id) (update_where p f store.sessions) =
      pending_storage-weight user.id after ∙ ap (sum_of (weight user.id)) rows in
    record {
      found = unfold complete_finalize in rw users h.found;
      kept = rw rows (IsKept-update_where user.id p f tame store.sessions h.kept);
      sized = rw rows (
          All-update_where {P = λ (s : UploadSession). s.size ≤ limit}
            {Q = λ (s : UploadSession). s.size ≤ limit} p f
            (λ s k _. subst (λ (n : ℕ). n ≤ limit) (sym (tame.size s)) k) (λ s k _. k)
            store.sessions h.sized);
      within = elim (Bool-cases (of_user user.id link)) [
        | inr other ↦
            let same : used_storage user.id mid ≡ used_storage user.id store =
              uses ∙ (rw other (omega arith)) in
            omega
              (arith, h.within, used, same, pending, lower, pending_storage-weight user.id store)
        | inl own ↦
            let mine : session.user_id ≡ user.id = ground (arith, own, owner) in
            let more : used_storage user.id mid ≡ used_storage user.id store + bytes =
              uses ∙ (rw own refl) in
            let group = session.client_upload_uuid in
            let rest : sum_of (weight user.id) (update_where p f store.sessions)
                ≤ sum_of (owed user.id group) store.sessions =
              subst
                (λ (i : ℕ).
                  sum_of (weight i) (update_where p f store.sessions)
                  ≤ sum_of (owed i group) store.sessions)
                mine (finish-owed session now link store.sessions) in
            let outside = pending_outside-owed user.id group store in
            let le =
              check_quota_outside-le user.id bytes group store h.found stored (omega (arith, small))
                (omega (
                  arith,
                  small,
                  bounded,
                  h.within,
                  outside,
                  owed-weight user.id group store.sessions,
                  pending_storage-weight user.id store,
                ))
                (subst (λ (i : ℕ). check_quota_outside i bytes group store ≡ accept tt) mine
                  passed) in
            omega (arith, used, more, pending, rest, outside, le)
      ];
    }
