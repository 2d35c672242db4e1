-- ===== src/Uploads/Within.antt =====
-- The storage quota of a user as an invariant of the tables of services/tusupload/service.go, which an
-- accepted upload and a tame edit keep.
use videocms.Base.{
  ℕ, ◌+◌, ◌≤◌, ◌<◌, ◌≡◌, refl, sym, ap, subst, ◌∙◌, ◌⊎◌, inl, inr, ◌≢◌, Bool, some, String, [], ◌∷◌,
  arith, ◌==◌, first, update_where, sum_of, sum_of-append, All, All-append, All-update_where,
  int64_limit, Bool-cases,
}
use videocms.Media.{UploadSession, UploadStatus, User, Store, Disk, accept}
use videocms.Sharing.Capacity.{is_active}
use videocms.Uploads.Tools.{Settings, Tools, Context, FileInfo}
use videocms.Uploads.Limits.{check_storage_quota, used_storage, pending_storage}
use videocms.Uploads.Create.{pre_upload_create}
use videocms.Uploads.Created.{pre_upload_create-Checked, create_session-Gains, reserve_lem}
use videocms.Uploads.Quota.{check_storage_quota-le}
use videocms.Uploads.Events.{end_session}
use videocms.Uploads.Expiry.{expire_session, remove_files, is_stuck}
use videocms.Uploads.Tame.{
  IsKept, weight, weight-cases, pending_storage-weight, IsTame, IsKept-update_where,
  weight-update_where, end_session-IsTame,
}
use videocms.Uploads.Edits.{Edit, update_session-Edit}

-- The user's videos and live reservations are within the user's storage, and no session is larger than
-- the limit on the size of a file.
pub record IsWithin (limit : ℕ) (user : User) (store : Store) : Type 0 where
  pub found : first (λ (u : User). u.id == user.id) store.users ≡ some user
  pub kept : All IsKept store.sessions
  pub sized : All (λ (s : UploadSession). s.size ≤ limit) store.sessions
  pub within : used_storage user.id store + pending_storage user.id store ≤ user.storage

pub used_storage-same :
    (user_id : ℕ) (store store' : Store)
    → store'.links ≡ store.links
    → store'.files ≡ store.files
    → used_storage user_id store' ≡ used_storage user_id store
unfolding used_storage
used_storage-same user_id store store' links files = rw (links, files) refl

-- What an edit of sessions comes to.
edit-IsWithin :
    {limit : ℕ} {user : User} (store store' : Store) (p : UploadSession → Bool)
    (f : UploadSession → UploadSession)
    → IsTame f
    → store'.users ≡ store.users
    → store'.links ≡ store.links
    → store'.files ≡ store.files
    → store'.sessions ≡ update_where p f store.sessions
    → IsWithin limit user store
    → IsWithin limit user store'
edit-IsWithin {limit} {user} store store' p f tame users links files sessions h = record {
  found = rw users h.found;
  kept = rw sessions (IsKept-update_where user.id p f tame store.sessions h.kept);
  sized = rw sessions (
      All-update_where {P = λ (s : UploadSession). s.size ≤ limit}
        {Q = λ (s : UploadSession). s.size ≤ limit} p f
        (λ s k _. subst (λ (n : ℕ). n ≤ limit) (sym (tame.size s)) k) (λ s k _. k) store.sessions
        h.sized);
  within = omega (
    arith,
    h.within,
    used_storage-same user.id store store' links files,
    pending_storage-weight user.id store,
    pending_storage-weight user.id store',
    ap (sum_of (weight user.id)) sessions,
    weight-update_where user.id p f tame store.sessions h.kept,
  );
}

pub create-IsWithin :
    {user : User} {store store' : Store} {s : UploadSession} (settings : Settings) (tools : Tools)
    (now id tus_id : ℕ) (fresh : String) (context : Context) (info : FileInfo)
    → 0 < settings.max_upload_filesize
    → user.storage ≢ 0
    → user.storage + settings.max_upload_filesize < int64_limit
    → pre_upload_create tools settings now id tus_id fresh context info store ≡ accept (s, store')
    → IsWithin settings.max_upload_filesize user store
    → IsWithin settings.max_upload_filesize user store'
create-IsWithin {user} {store} {store'} {s} settings tools now id tus_id fresh context info limited
      stored small e h =
    let (session, checked, made) =
      pre_upload_create-Checked tools settings now id tus_id fresh context info store e in
    let (reserved, gains) =
      create_session-Gains tools settings now context.share info session store made in
    let same =
      reserve_lem tools settings now context.share (info.metadata "file_size") session store
        reserved in
    record {
      found = rw gains.users h.found;
      kept = rw gains.sessions (
          All-append IsKept store.sessions (s ∷ []) h.kept
            (inr (ap (λ (x : UploadSession). is_active x.status) same ∙ checked.active), tt));
      sized = rw gains.sessions (
          All-append (λ (x : UploadSession). x.size ≤ settings.max_upload_filesize) store.sessions
            (s ∷ []) h.sized
            (
              subst (λ (n : ℕ). n ≤ settings.max_upload_filesize)
                  (sym (ap (λ (x : UploadSession). x.size) same)) (checked.fits limited),
              tt,
            ));
      within = omega (
        arith,
        h.within,
        used_storage-same user.id store store' gains.links gains.files,
        pending_storage-weight user.id store,
        pending_storage-weight user.id store',
        ap (sum_of (weight user.id)) gains.sessions,
        sum_of-append (weight user.id) store.sessions (s ∷ []),
        new_weight s,
        fits session.user_id session.quota_bytes s (ap (λ (x : UploadSession). x.user_id) same)
            (ap (λ (x : UploadSession). x.quota_bytes) same) checked.quota
            (checked.bounded limited),
      );
    }
  where
    new_weight : (s : UploadSession) → sum_of (weight user.id) (s ∷ []) ≡ weight user.id s
    new_weight s = unfold sum_of in omega arith

    fits :
        (user_id quota : ℕ) (s : UploadSession)
        → s.user_id ≡ user_id
        → s.quota_bytes ≡ quota
        → (quota ≡ 0) ⊎ (check_storage_quota user_id quota store ≡ accept tt)
        → quota ≤ settings.max_upload_filesize
        → used_storage user.id store + pending_storage user.id store + weight user.id s
          ≤ user.storage
    fits user_id quota s owner size checked bounded = elim (weight-cases user.id s) [
      | inl nothing ↦ omega (arith, nothing, h.within)
      | inr (mine, le) ↦ elim checked [
        | inl free ↦ omega (arith, le, size, free, h.within)
        | inr passed ↦
            let passed' =
              subst (λ (i : ℕ). check_storage_quota i quota store ≡ accept tt) (sym owner ∙ mine)
                passed in
            omega (
              arith,
              le,
              size,
              check_storage_quota-le user.id quota store h.found stored (omega arith)
                  (omega (arith, h.within, bounded, small)) passed',
            )
      ]
    ]

pub Edit-IsWithin :
    {limit : ℕ} {user : User} {store store' : Store}
    → (store' ≡ store) ⊎ Edit store store'
    → IsWithin limit user store
    → IsWithin limit user store'
Edit-IsWithin (inl same) h = rw same h
Edit-IsWithin {store = store} {store' = store'} (inr e) h =
    edit-IsWithin store store' e.p e.f e.tame e.users e.links e.files e.sessions h

-- Files that are removed are not in the tables.
disk-IsWithin :
    {limit : ℕ} {user : User} {store : Store} (disk : Disk)
    → IsWithin limit user store
    → IsWithin limit user (record store { disk = disk })
disk-IsWithin {store = store} disk h = record {
  found = h.found;
  kept = h.kept;
  sized = h.sized;
  within = unfold used_storage pending_storage in h.within;
}

pub expire_session-IsWithin :
    {limit : ℕ} {user : User} {store : Store} (stuck : String → Bool) (now : ℕ)
    (session : UploadSession)
    → IsWithin limit user store
    → IsWithin limit user (expire_session stuck now session store).0
unfolding expire_session
expire_session-IsWithin {store = store} stuck now session h =
    let removed : Store = record store { disk = remove_files stuck session store.disk } in
    elim (Bool-cases (is_stuck stuck session)) [
      | inl failed ↦
          rw (expire_session, failed)
            (disk-IsWithin {store = store} (remove_files stuck session store.disk) h)
      | inr done ↦
          rw (expire_session, done)
            (Edit-IsWithin {store = store}
              (inr (
                update_session-Edit session.id (end_session now UploadStatus.expired) store removed
                  (end_session-IsTame now UploadStatus.expired) refl refl refl refl))
              h)
    ]
