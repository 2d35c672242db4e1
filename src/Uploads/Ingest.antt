-- ===== src/Uploads/Ingest.antt =====
-- EnqueueFinalize of services/tusupload/service.go, which queues the import as a background job, and
-- SharedUploadStatus of shared.go. The texts of the job are the parameters `texts`.
use videocms.Base.{
  ℕ, Bool, true, false, not, ◌&&◌, ◌||◌, Option, none, some, String, [], ◌∷◌, ◌==◌, if◌then◌else◌,
  first, update_where, is_some,
}
use videocms.Media.{
  UploadSession, UploadStatus, Link, FolderShare, Store, Reply, accept, refuse, ◌>>=◌, ◌>>◌, unless,
  accept_if,
}
use videocms.Sharing.{contains_folder}
use videocms.Background.Types.{Job, JobSpec, Visibility}
use videocms.Background.Text.{Library}
use videocms.Background.Database.{Db, ok, err}
use videocms.Background.Enqueue.{enqueue}
use videocms.Uploads.Limits.{is_partial_kind}
use videocms.Uploads.Guests.{authorize_shared_session, validate_shared_capacity, is_done}
use videocms.Uploads.Expiry.{is_expired, expire_session}
use videocms.Uploads.Finalize.{is_ready, is_importing, of_group}
use videocms.Uploads.Tools.{Settings, Tools, Context}

-- What fmt.Sprintf and the JSON encoder make of a session.
pub record JobTexts : Type 0 where
  pub tus_id : ℕ → String
  pub idempotency_key : ℕ → String → String
  pub label : String → String
  pub payload : ℕ → String
  pub dedupe_key : ℕ → String

unfoldable pub ingest_spec : JobTexts → ℕ → UploadSession → JobSpec
ingest_spec texts user_id session = record {
  kind = "media.ingest";
  visibility = some Visibility.user;
  owner_id = some session.user_id;
  subject_type = "upload_session";
  subject_id = texts.tus_id session.tus_id;
  idempotency_key = texts.idempotency_key user_id session.client_upload_uuid;
  label = texts.label session.name;
  pausable = false;
  tasks =
      record {
        kind = "media.import";
        queue = "storage";
        phase = "Importing upload";
        payload_version = 0;
        payload = some (texts.payload session.id);
        dedupe_key = texts.dedupe_key session.id;
        priority = 40;
        required = true;
        weight = 20;
        max_attempts = 0;
        run_after = none;
        parent_task_id = none;
      }
      ∷ [];
}

-- A session whose import may be queued, or has been.
unfoldable pub is_complete : UploadStatus → Bool
is_complete status = is_ready status || (is_importing status || is_done status)

-- The checks before the job: the session, and whether it is to expire.
unfoldable pub finalizable : Context → ℕ → ℕ → Store → Reply UploadSession
unfolding authorize_shared_session
finalizable context tus_id user_id store = do
  session ← accept_if (first (λ (s : UploadSession). s.tus_id == tus_id) store.sessions) 404
  unless (session.user_id == user_id) 403
  authorize_shared_session context session store
  unless (not (is_partial_kind session.kind)) 400
  accept session

-- A guest's video must still find room, unless its job is there.
unfoldable pub check_room :
    Tools → Settings → ℕ → Option FolderShare → UploadSession → Store → Reply (Unit {0})
unfolding validate_shared_capacity
check_room tools settings now none session store = accept tt
check_room tools settings now (some share) session store =
    if is_some session.background_job_id
    then accept tt
    else validate_shared_capacity tools settings now store share session.size
        session.client_upload_uuid

unfoldable pub set_job : ℕ → UploadSession → UploadSession
set_job job_id s = record s { background_job_id = some job_id }

unfoldable pub enqueue_finalize :
    Library
    → JobTexts
    → Tools
    → Settings
    → (String → Bool)
    → ℕ
    → ℕ
    → (ℕ → ℕ)
    → Context
    → ℕ
    → ℕ
    → Store
    → Db
    → Store × Db × Reply (Job × Bool)
unfolding finalizable is_expired expire_session is_complete check_room ingest_spec enqueue of_group
    set_job
enqueue_finalize lib texts tools settings stuck now id uuid context tus_id user_id store db =
    elim (finalizable context tus_id user_id store) [
      | refuse status ↦ (store, db, refuse status)
      | accept session ↦
          if is_expired now session
          then ((expire_session stuck now session store).0, db, refuse 410)
          else elim (unless (is_complete session.status) 409
              >> check_room tools settings now context.share session store) [
                | refuse status ↦ (store, db, refuse status)
                | accept _ ↦ elim (enqueue lib now id uuid (ingest_spec texts user_id session) db) [
                  | err _ ↦ (store, db, refuse 500)
                  | ok (job, reused, db') ↦ (
                    record store {
                      sessions = update_where (of_group session) (set_job job.id) store.sessions;
                    },
                    db',
                    accept (job, reused),
                  )
                ]
              ]
    ]

pub data SharedUploadResult : Type 0 where
  failed processing : SharedUploadResult
  ready : String → SharedUploadResult

abbrev is_gone : UploadStatus → Bool
is_gone UploadStatus.canceled = true
is_gone UploadStatus.expired = true
is_gone _ = false

abbrev is_failed : UploadStatus → Bool
is_failed UploadStatus.failed = true
is_failed _ = false

-- The public link of a guest's own upload, for a share that gives links (`returns_link`). The session
-- comes from the row of the share's owner.
unfoldable pub shared_upload_status :
    ℕ → Context → FolderShare → Bool → ℕ → Store → Reply SharedUploadResult
unfolding authorize_shared_session is_expired contains_folder
shared_upload_status now context share returns_link tus_id store = do
  unless returns_link 403
  session ←
      accept_if
        (first (λ (s : UploadSession). s.tus_id == tus_id && s.user_id == share.user_id)
          store.sessions)
        404
  authorize_shared_session context session store
  unless (not (is_partial_kind session.kind)) 400
  unless (not (is_expired now session || is_gone session.status)) 410
  if is_failed session.status
      then accept SharedUploadResult.failed
      else if not (is_done session.status)
      then accept SharedUploadResult.processing
      else do
        link ←
            accept_if
              (first
                (λ (l : Link).
                  l.id == session.link_id && (l.user_id == share.user_id && not l.deleted))
                store.links)
              404
        unless (contains_folder store share link.parent_folder_id) 403
        accept (SharedUploadResult.ready link.uuid)
