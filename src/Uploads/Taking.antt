-- ===== src/Uploads/Taking.antt =====
-- transitionToImporting of services/tusupload/service.go as a lock: one request at a time imports.
use videocms.Base.{ℕ, ◌≡◌, Bool, false, ◌&&◌, String, List, All}
use videocms.Media.{UploadSession, Link, Store, accept, has_session_id}
use videocms.Uploads.Tools.{Settings, Tools, Context, FileInfo, EventInfo}
use videocms.Uploads.Create.{pre_upload_create}
use videocms.Uploads.Events.{update_session_from_event, terminate_session}
use videocms.Uploads.Expiry.{expire_session}
use videocms.Uploads.Finalize.{
  transition_to_importing, is_ready, set_storage_path, complete_finalize,
}

-- No row of the session can be taken.
abbrev IsTaken : ℕ → List UploadSession → Type 0
IsTaken id = All (λ (s : UploadSession). (has_session_id id s && is_ready s.status) ≡ false)

-- Operations that neither complete a session, nor fail it, nor set it back to uploaded, as
-- finalizeContext does with one whose file is there: any of them, on any sessions.
pub data Meanwhile (settings : Settings) (store : Store) : Store → Type 0 where
  nothing : Meanwhile settings store store
  and_create :
      {mid store' : Store} {s : UploadSession} (tools : Tools) (now id tus_id : ℕ) (fresh : String)
      (context : Context) (info : FileInfo)
      → Meanwhile settings store mid
      → pre_upload_create tools settings now id tus_id fresh context info mid ≡ accept (s, store')
      → Meanwhile settings store store'
  and_progress :
      {mid : Store} (track : Bool) (info : EventInfo)
      → Meanwhile settings store mid
      → Meanwhile settings store (update_session_from_event track info mid)
  and_terminate :
      {mid : Store} (now tus_id : ℕ)
      → Meanwhile settings store mid
      → Meanwhile settings store (terminate_session now tus_id mid)
  and_expire :
      {mid : Store} (stuck : String → Bool) (now : ℕ) (session : UploadSession)
      → Meanwhile settings store mid
      → Meanwhile settings store (expire_session stuck now session mid).0
  and_take :
      {mid store' : Store} (session : UploadSession)
      → Meanwhile settings store mid
      → transition_to_importing session mid ≡ accept store'
      → Meanwhile settings store store'
  and_move :
      {mid : Store} (id : ℕ) (path : String)
      → Meanwhile settings store mid
      → Meanwhile settings store (set_storage_path id path mid)
  and_finish :
      {mid : Store} (stuck : String → Bool) (now : ℕ) (session : UploadSession) (link : Link)
      → Meanwhile settings store mid
      → Meanwhile settings store (complete_finalize stuck now session link mid)
