-- ===== src/Uploads/Histories.antt =====
-- The operations of services/tusupload/service.go on the sessions, in any order, and the quota that
-- they keep: uploads are accepted, progress, complete, end, expire, and are imported. An import's quota
-- check, its new rows and completeFinalize are one step: in the code the video counts, besides the
-- reservation of its upload, from the transaction of CreateFile until that of completeFinalize.
use videocms.Base.{
  ℕ, ◌+◌, ◌<◌, ◌≡◌, inr, ◌≢◌, Bool, String, int64_limit, some, [], ◌∷◌, ◌==◌, first, select,
}
use videocms.Media.{UploadSession, User, File, Link, Store, accept}
use videocms.Uploads.Videos.{create_video, clone_video}
use videocms.Uploads.Stored.{IsNew, create_video-IsWithin, clone_video-IsWithin}
use videocms.Uploads.Tools.{Settings, Tools, Context, FileInfo, EventInfo}
use videocms.Uploads.Create.{pre_upload_create}
use videocms.Uploads.Events.{
  update_session_from_event, complete_session_from_event, terminate_session,
}
use videocms.Uploads.Expiry.{expire_session}
use videocms.Uploads.Finalize.{transition_to_importing, fail_finalize, complete_finalize}
use videocms.Uploads.Edits.{
  update_session_from_event-Edit, complete_session_from_event-Edit, terminate_session-Edit,
  transition_to_importing-Edit, fail_finalize-Edit, complete_finalize-Edit,
}
use videocms.Uploads.Within.{IsWithin, create-IsWithin, Edit-IsWithin, expire_session-IsWithin}

-- One operation, with the settings that the service has.
pub data Step (settings : Settings) : Store → Store → Type 0 where
  creates :
      {store store' : Store} {s : UploadSession} (tools : Tools) (now id tus_id : ℕ)
      (fresh : String) (context : Context) (info : FileInfo)
      → pre_upload_create tools settings now id tus_id fresh context info store ≡ accept (s, store')
      → Step settings store store'
  progresses :
      {store : Store} (track : Bool) (info : EventInfo)
      → Step settings store (update_session_from_event track info store)
  completes :
      {store : Store} (now : ℕ) (info : EventInfo)
      → Step settings store (complete_session_from_event now info store)
  terminates :
      {store : Store} (now tus_id : ℕ) → Step settings store (terminate_session now tus_id store)
  expires :
      {store : Store} (stuck : String → Bool) (now : ℕ) (session : UploadSession)
      → Step settings store (expire_session stuck now session store).0
  takes :
      {store store' : Store} (session : UploadSession)
      → transition_to_importing session store ≡ accept store'
      → Step settings store store'
  fails :
      {store : Store} (session : UploadSession) (message : String)
      → Step settings store (fail_finalize session message store)
  finishes :
      {store : Store} (stuck : String → Bool) (now : ℕ) (session : UploadSession) (link : Link)
      → Step settings store (complete_finalize stuck now session link store)
  -- CreateFile found nothing to clone: a file and a link are new.
  imports :
      {store mid : Store} {link : Link} (tools : Tools) (stuck : String → Bool)
      (now tus_id link_id file_id file_uuid : ℕ) (link_uuid : String) (session : UploadSession)
      → first (λ (s : UploadSession). s.tus_id == tus_id) store.sessions ≡ some session
      → IsNew file_id store
      → create_video tools link_id link_uuid file_id file_uuid session store ≡ accept (link, mid)
      → Step settings store (complete_finalize stuck now session link mid)
  -- A file of the same content, so of the same size, was there: a link is new.
  clones :
      {store mid : Store} {link : Link} (tools : Tools) (stuck : String → Bool)
      (now tus_id link_id : ℕ) (link_uuid : String) (session : UploadSession) (file : File)
      → first (λ (s : UploadSession). s.tus_id == tus_id) store.sessions ≡ some session
      → select (λ (f : File). f.id == file.id) store.files ≡ file ∷ []
      → file.size ≡ session.size
      → clone_video tools link_id link_uuid file session store ≡ accept (link, mid)
      → Step settings store (complete_finalize stuck now session link mid)

pub data History (settings : Settings) (store : Store) : Store → Type 0 where
  start : History settings store store
  and_then :
      {mid store' : Store}
      → History settings store mid
      → Step settings mid store'
      → History settings store store'

-- If the settings have a limit on the size of a file, and it and the user's storage, which is
-- limited, fit an int64 together, then no sequence of steps, in which uploads are accepted, progress,
-- complete, end, expire or are imported, takes the user's videos and live reservations together past
-- the user's storage, or a session's size past the limit.
pub History-IsWithin :
    {user : User} {settings : Settings} {store store' : Store}
    → 0 < settings.max_upload_filesize
    → user.storage ≢ 0
    → user.storage + settings.max_upload_filesize < int64_limit
    → History settings store store'
    → IsWithin settings.max_upload_filesize user store
    → IsWithin settings.max_upload_filesize user store'
History-IsWithin limited stored small start h = h
History-IsWithin {user} {settings} {store} limited stored small
      (and_then {mid} {store'} before step) h =
    Step-IsWithin step (History-IsWithin limited stored small before h)
  where
    Step-IsWithin :
        {store store' : Store}
        → Step settings store store'
        → IsWithin settings.max_upload_filesize user store
        → IsWithin settings.max_upload_filesize user store'
    Step-IsWithin (creates tools now id tus_id fresh context info e) h =
        create-IsWithin settings tools now id tus_id fresh context info limited stored small e h
    Step-IsWithin {store} (progresses track info) h =
        Edit-IsWithin (update_session_from_event-Edit track info store) h
    Step-IsWithin {store} (completes now info) h =
        Edit-IsWithin (complete_session_from_event-Edit now info store) h
    Step-IsWithin {store} (terminates now tus_id) h =
        Edit-IsWithin (terminate_session-Edit now tus_id store) h
    Step-IsWithin (expires stuck now session) h = expire_session-IsWithin stuck now session h
    Step-IsWithin {store} (takes session e) h =
        Edit-IsWithin (inr (transition_to_importing-Edit session store e)) h
    Step-IsWithin {store} (fails session message) h =
        Edit-IsWithin (inr (fail_finalize-Edit session message store)) h
    Step-IsWithin {store} (finishes stuck now session link) h =
        Edit-IsWithin (inr (complete_finalize-Edit stuck now session link store)) h
    Step-IsWithin {store}
          (imports tools stuck now tus_id link_id file_id file_uuid link_uuid session found new e)
          h =
        create_video-IsWithin stored small tools stuck now tus_id link_id link_uuid session store
          found h file_id file_uuid new e
    Step-IsWithin {store}
          (clones tools stuck now tus_id link_id link_uuid session file found row_of size e) h =
        clone_video-IsWithin stored small tools stuck now tus_id link_id link_uuid session store
          found h file row_of size e
