-- ===== src/Uploads/Expiry.antt =====
-- isExpired, expireSession, CleanupExpiredOnceE and authorizeUploadResource of
-- services/tusupload/service.go. `stuck` tells the paths that os.Remove fails at with another error
-- than that there is no file. The clean-up of the old schema's rows is left out.
use text.Mathlib.Text.{◌==◌ as str_eq}
use videocms.Base.{
  ℕ, Bool, true, false, not, ◌&&◌, ◌||◌, Option, none, some, String, List, [], ◌∷◌, ◌==◌, ltb,
  if◌then◌else◌, first, select,
}
use videocms.Media.{
  UploadSession, UploadStatus, Store, Disk, Reply, accept, refuse, ◌>>=◌, ◌>>◌, unless, accept_if,
  has_tus_id, update_session,
}
use videocms.Sharing.Capacity.{is_active}
use videocms.Uploads.Tools.{Context}
use videocms.Uploads.Guests.{authorize_shared_session}
use videocms.Uploads.Events.{end_session}

abbrev is_over : UploadStatus → Bool
is_over UploadStatus.done = true
is_over UploadStatus.canceled = true
is_over UploadStatus.expired = true
is_over _ = false

abbrev pub is_past : ℕ → Option ℕ → Bool
is_past now none = false
is_past now (some at) = ltb at now

unfoldable pub is_expired : ℕ → UploadSession → Bool
is_expired now s = is_past now s.expires_at && not (is_over s.status)

unfoldable pub remove_file : String → Disk → Disk
remove_file path disk p = if str_eq p path then none else disk p

-- The files of a session, each removed unless its path is empty or stuck.
unfoldable pub remove_files : (String → Bool) → UploadSession → Disk → Disk
unfolding remove_file
remove_files stuck s disk =
    let disk' =
      if str_eq s.storage_path "" || stuck s.storage_path
      then disk
      else remove_file s.storage_path disk in
    if str_eq s.info_path "" || stuck s.info_path then disk' else remove_file s.info_path disk'

unfoldable pub is_stuck : (String → Bool) → UploadSession → Bool
is_stuck stuck s =
    (not (str_eq s.storage_path "") && stuck s.storage_path)
    || (not (str_eq s.info_path "") && stuck s.info_path)

-- The tables and whether it failed.
unfoldable pub expire_session : (String → Bool) → ℕ → UploadSession → Store → Store × Bool
unfolding remove_files is_stuck end_session update_session
expire_session stuck now session store =
    let removed = record store { disk = remove_files stuck session store.disk } in
    if is_stuck stuck session
    then (removed, true)
    else (update_session session.id (end_session now UploadStatus.expired) removed, false)

-- expires_at < now, in an active status, live.
unfoldable pub is_due_for_cleanup : ℕ → UploadSession → Bool
unfolding is_active
is_due_for_cleanup now s = is_past now s.expires_at && (is_active s.status && not s.deleted)

-- The loop over the rows found: the tables, and whether any failed.
unfoldable pub expire_all : (String → Bool) → ℕ → List UploadSession → Store → Store × Bool
unfolding expire_session
expire_all stuck now [] store = (store, false)
expire_all stuck now (s ∷ rest) store =
    let (store', failed) = expire_session stuck now s store in
    let (last, failed') = expire_all stuck now rest store' in (last, failed || failed')

unfoldable pub cleanup_expired_once : (String → Bool) → ℕ → Store → Store × Bool
unfolding expire_all is_due_for_cleanup select
cleanup_expired_once stuck now store =
    expire_all stuck now (select (is_due_for_cleanup now) store.sessions) store

-- Who may use an upload; an expired one is expired on the way.
unfoldable pub authorize_upload_resource :
    (String → Bool) → ℕ → Context → ℕ → Store → Store × Reply UploadSession
unfolding authorize_shared_session is_expired expire_session
authorize_upload_resource stuck now context tus_id store =
    elim (do
      user_id ← accept_if context.user_id 403
      session ← accept_if (first (has_tus_id tus_id) store.sessions) 404
      unless (session.user_id == user_id) 403
      authorize_shared_session context session store
      accept session) [
        | refuse status ↦ (store, refuse status)
        | accept session ↦
            if is_expired now session
            then ((expire_session stuck now session store).0, refuse 410)
            else (store, accept session)
      ]
