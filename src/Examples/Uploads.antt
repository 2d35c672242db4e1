-- ===== src/Examples/Uploads.antt =====
-- Concrete uploads and folder shares: each theorem at tables that it is about.
use text.Mathlib.Text.{◌==◌ as str_eq}
use videocms.Base.{
  ℕ, pos, ◌+◌, ◌≤◌, ◌<◌, ◌≡◌, refl, ◌⊎◌, true, false, none, some, String, List, [], ◌∷◌, arith, All,
  first, select, count_where, update_where, sum_of, if◌then◌else◌,
}
use videocms.Media.{
  UploadSession, UploadKind, UploadStatus, User, Folder, FolderShare, Store, accept, refuse,
  update_session,
}
use videocms.Sharing.{is_own_folder, walk, contains_folder, subtree, is_member}
use videocms.Sharing.Walk.{Above, contains_folder-Above}
use videocms.Sharing.Subtree.{contains_folder-subtree}
use videocms.Uploads.Events.{complete}
use videocms.Sharing.Below.{Below, subtree-Below}
use videocms.Base.{◌↔◌}
use videocms.Uploads.Videos.{create_video, video_link}
use videocms.Uploads.Tools.{Settings, Tools, Context, FileInfo, EventInfo}
use videocms.Uploads.Limits.{
  check_storage_quota, used_storage, pending_storage, is_active_of, linked_bytes,
}
use videocms.Uploads.Quota.{check_storage_quota-overflow}
use videocms.Uploads.Guests.{is_final_kind, share_of}
use videocms.Uploads.Create.{pre_upload_create, create_session, kind_of, new_session}
use videocms.Uploads.Events.{
  update_session_from_event, complete_session_from_event, end_session, track_progress,
}
use videocms.Uploads.Expiry.{
  is_expired, cleanup_expired_once, is_due_for_cleanup, expire_all, expire_session, remove_files,
  is_stuck,
}
use videocms.Uploads.Finalize.{of_group}
use videocms.Uploads.Ingest.{
  JobTexts, enqueue_finalize, finalizable, check_room, ingest_spec, set_job, is_complete,
}
use videocms.Uploads.Within.{IsWithin}
use videocms.Uploads.Histories.{start, and_then, creates, completes, imports, History-IsWithin}
use videocms.Uploads.Progress.{logged, all_events, all_events-logged}
use videocms.Uploads.Late.{late_progress-refused}
use videocms.Uploads.Reservation.{guest_create-reserves, group_of, part_size}
use videocms.Uploads.Cleanup.{cleanup_expired_once_lem}
use videocms.Uploads.Guests.{authorize_shared_session}
use videocms.Media.{Reply}
use videocms.Base.{Bool}
use videocms.Background.Database.{Db}
use videocms.Media.{Link}
use videocms.Uploads.Finalize.{CreateFile, complete_finalize, finalize_context}
use videocms.Uploads.Finalized.{complete_finalize-again}
use videocms.Uploads.Again.{enqueue_finalize-again}
use videocms.Background.Types.{Job}
use videocms.Samples.{enqueuing_code, library, tables, running_task, running_job}

abbrev home : Folder
home = record { id = 1; deleted = false; user_id = 4; parent_folder_id = 0 }

abbrev films : Folder
films = record { id = 2; deleted = false; user_id = 4; parent_folder_id = 1 }

abbrev series : Folder
series = record { id = 3; deleted = false; user_id = 4; parent_folder_id = 2 }

abbrev invitation : FolderShare
invitation = record {
  id = 8;
  token = "token";
  user_id = 4;
  folder_id = 1;
  allow_read = true;
  allow_upload = true;
  max_video_size = 0;
  max_folder_size = 0;
  access_version = "v1";
  expires_at = none;
}

abbrev ada : User
ada = record { id = 4; storage = 5000; upload_sessions_max = 3 }

abbrev single_upload : UploadSession
single_upload = record {
  id = 6;
  deleted = false;
  background_job_id = none;
  folder_share_id = 0;
  folder_share_version = "";
  client_upload_uuid = "group";
  tus_id = 60;
  kind = UploadKind.single;
  status = UploadStatus.uploading;
  name = "film.mp4";
  size = 900;
  expected_size = 0;
  offset = 100;
  quota_bytes = 900;
  part_count = 0;
  storage_path = "";
  info_path = "";
  parent_folder_id = 3;
  user_id = 4;
  file_id = 0;
  link_id = 0;
  expires_at = some 50;
  completed_at = none;
  finalized_at = none;
  error = "";
}

abbrev drive : List UploadSession → Store
drive sessions = record {
  users = ada ∷ [];
  folders = series ∷ films ∷ home ∷ [];
  files = [];
  links = [];
  shares = invitation ∷ [];
  sessions = sessions;
  parts = [];
  logs = [];
  disk = λ _. none;
}

contains_folder-Above_example : (n : ℕ) × (n < 256) × Above (drive []).folders invitation n 3
unfolding contains_folder walk is_own_folder count_where first
contains_folder-Above_example = (contains_folder-Above (drive []) invitation 3).0 refl

contains_folder-subtree_example : is_member (subtree (drive []).folders invitation) 3 ≡ true
unfolding contains_folder walk is_own_folder count_where first
contains_folder-subtree_example = contains_folder-subtree (drive []) invitation 3 refl

subtree-Below_example :
    (is_member (subtree (drive []).folders invitation) 3 ≡ true)
    ↔ Below (drive []).folders invitation 3
subtree-Below_example = subtree-Below (drive []).folders invitation 3

check_storage_quota-overflow_example :
    check_storage_quota 4 9223372036854775000 (drive (single_upload ∷ [])) ≡ accept tt
unfolding used_storage pending_storage is_active_of sum_of select linked_bytes first
check_storage_quota-overflow_example =
    check_storage_quota-overflow 4 9223372036854775000 (drive (single_upload ∷ [])) {user = ada}
      refl (omega arith) (omega arith) (omega arith) (omega arith) (omega arith)

abbrev settings : Settings
settings = record {
  upload_enabled = some true;
  max_upload_filesize = 1000;
  max_upload_sessions = 9;
}

abbrev received : UploadSession
received = record single_upload { status = UploadStatus.uploaded; offset = 900 }

abbrev taken : UploadSession
taken = record received { status = UploadStatus.importing }

abbrev event : ℕ → EventInfo
event offset = record {
  id = 60;
  offset = offset;
  storage_path = "/tus/60";
  info_path = "/tus/60.info";
}

all_events-logged_example :
    logged 6 (all_events 9 (event 400 ∷ event 700 ∷ []) (event 900) (drive (single_upload ∷ [])))
      + 100
    ≡ logged 6 (drive (single_upload ∷ [])) + 900
unfolding first
all_events-logged_example =
    all_events-logged 9 60 (event 400 ∷ event 700 ∷ []) (event 900) (drive (single_upload ∷ []))
      {session = single_upload} refl refl
      ((refl, omega arith), ((refl, omega arith), (refl, omega arith)))

abbrev tools : Tools
tools = record {
  trim_space = λ s. s;
  parse_uint = λ _. some 3;
  parse_int = λ _. some (pos 900);
  is_uuid = λ _. true;
  extension = λ _. "mp4";
  creation_key = λ _ group. group;
  file_uuid = λ user_id session_id _. user_id + session_id;
  tus_path = λ _. "/tus/60";
  import_path = λ _ name. name;
}

abbrev texts : JobTexts
texts = record {
  tus_id = λ _. "60";
  idempotency_key = λ _ group. group;
  label = λ name. name;
  payload = λ _. "{}";
  dedupe_key = λ _. "6";
}

abbrev owner : Context
owner = record { user_id = some 4; share = none }

late_progress-refused_example :
    let after =
      update_session_from_event true
        (event 800)
        (complete_session_from_event 9 (event 900) (drive (single_upload ∷ []))) in
    enqueue_finalize library texts tools settings
      (λ _. false)
      10
      2
      (λ n. n)
      owner
      60
      4
      after
      (tables running_job running_task)
    ≡ (after, tables running_job running_task, refuse 409)
unfolding first
late_progress-refused_example =
    late_progress-refused 9 (event 900) (event 800) refl true (drive (single_upload ∷ []))
      {session = single_upload} refl refl library texts tools settings (λ _. false) 10 2 (λ n. n)
      owner (tables running_job running_task) (omega arith) refl refl refl

cleanup_expired_once_lem_example :
    All
      (λ s. is_due_for_cleanup 99 s ≡ false)
      (drive (end_session 99 UploadStatus.expired single_upload ∷ [])).sessions
unfolding cleanup_expired_once is_due_for_cleanup expire_all expire_session remove_files is_stuck
    end_session update_session update_where select
cleanup_expired_once_lem_example =
    cleanup_expired_once_lem (λ _. false) 99 (drive (single_upload ∷ [])) refl

abbrev metadata : String → String
metadata key =
    if str_eq key "filename"
    then "film.mp4"
    else if str_eq key "parent_folder_id"
    then "3"
    else if str_eq key "client_upload_uuid"
    then "group"
    else if str_eq key "file_size"
    then "900"
    else ""

abbrev part_info : FileInfo
part_info = record {
  size = pos 400;
  metadata = metadata;
  is_partial = true;
  is_final = false;
  partial_uploads = [];
}

abbrev guest : Context
guest = record { user_id = some 4; share = some invitation }

abbrev first_part : UploadSession
first_part = record single_upload {
  folder_share_id = 8;
  folder_share_version = "v1";
  kind = UploadKind.partial;
  size = 500;
  quota_bytes = 500;
  expected_size = 900;
}

abbrev second_part : UploadSession
unfolding new_session kind_of share_of
second_part =
    record (new_session 9 7 70 guest "group" UploadKind.partial "film.mp4" 400 3 4 part_info) {
      expected_size = 900;
    }

abbrev shared_drive : Store
unfolding new_session kind_of share_of
shared_drive = drive (first_part ∷ second_part ∷ [])

guest_create-reserves_example :
    All (λ (r : UploadSession). r.expected_size ≡ 900) (group_of second_part shared_drive.sessions)
    × (sum_of part_size (group_of second_part shared_drive.sessions) ≤ 900)
    × ((is_final_kind second_part.kind ≡ false)
        ⊎ (sum_of part_size (group_of second_part shared_drive.sessions) ≡ 900))
unfolding pre_upload_create create_session first count_where
guest_create-reserves_example =
    guest_create-reserves tools settings 9 7 70 "fresh" guest part_info (drive (first_part ∷ []))
      {share = invitation} {s = second_part} {store' = shared_drive} refl refl

abbrev whole_info : FileInfo
whole_info = record part_info { size = pos 900; is_partial = false }

abbrev new_upload : UploadSession
unfolding new_session kind_of share_of
new_upload = new_session 9 6 60 owner "group" UploadKind.single "film.mp4" 900 3 4 whole_info

drive-IsWithin : IsWithin 1000 ada (drive [])
unfolding first used_storage pending_storage sum_of select
drive-IsWithin = record { found = refl; kept = tt; sized = tt; within = omega arith }

abbrev uploaded_session : UploadSession
unfolding complete new_session kind_of share_of
uploaded_session = complete 20 (event 900) new_upload

abbrev new_link : Link
unfolding video_link new_session kind_of share_of
new_link = video_link tools 5 "video" 2 uploaded_session

abbrev imported : Store
unfolding video_link complete new_session kind_of share_of
imported = record (drive (uploaded_session ∷ [])) {
  files = record { id = 2; deleted = false; uuid = 77; size = 900 } ∷ [];
  links = new_link ∷ [];
  logs = (complete_session_from_event 20 (event 900) (drive (new_upload ∷ []))).logs;
}

History-IsWithin_example :
    IsWithin 1000 ada (complete_finalize (λ _. false) 30 uploaded_session new_link imported)
unfolding pre_upload_create create_session first create_video complete_session_from_event
    update_where track_progress
History-IsWithin_example =
    History-IsWithin {user = ada} {settings = settings} (omega arith) (λ e. cc) (omega arith)
      (and_then
        (and_then
          (and_then start (
            creates {store = drive []} {store' = drive (new_upload ∷ [])} {s = new_upload} tools 9 6
              60 "fresh" owner whole_info refl))
          (completes 20 (event 900)))
        (imports {mid = imported} {link = new_link} tools (λ _. false) 30 60 5 2 77 "video"
          uploaded_session refl (tt, tt) refl))
      drive-IsWithin

abbrev first_call : Store × Db × Reply (Job × Bool)
unfolding enqueuing_code enqueue_finalize finalizable authorize_shared_session check_room is_expired
    ingest_spec set_job of_group is_complete first update_where
first_call =
    enqueue_finalize library texts tools settings (λ _. false) 10 2 (λ n. n + 60) owner 60 4
      (drive (received ∷ [])) (tables running_job running_task)

abbrev job_of : Reply (Job × Bool) → Job
job_of (accept (job, _)) = job
job_of (refuse _) = running_job

enqueue_finalize-again_example :
    enqueue_finalize library texts tools settings
      (λ _. false)
      20
      3
      (λ n. n + 70)
      owner
      60
      4
      first_call.0
      first_call.1
    ≡ (first_call.0, first_call.1, accept (job_of first_call.2, true))
unfolding enqueuing_code first enqueue_finalize
enqueue_finalize-again_example =
    enqueue_finalize-again library texts tools settings (λ _. false) owner 60 4 10 2 (λ n. n + 60)
      (drive (received ∷ [])) (tables running_job running_task) {session = received}
      {store' = first_call.0} {db' = first_call.1} {job = job_of first_call.2} {reused = false}
      ((omega arith, tt), (omega arith, tt)) refl refl refl 20 3 (λ n. n + 70) refl

abbrev video : Link
video = record {
  id = 5;
  deleted = false;
  uuid = "video";
  user_id = 4;
  file_id = 2;
  parent_folder_id = 3;
  creation_key = "group";
}

abbrev with_video : Store
with_video = record (drive (taken ∷ [])) { links = video ∷ [] }

abbrev no_file : CreateFile
no_file = λ _ _ _ store. (store, refuse 500)

complete_finalize-again_example :
    let done = complete_finalize (λ _. false) 30 taken video with_video in
    finalize_context tools (λ _. true) no_file false 99 true 60 4 done ≡ (done, accept video)
unfolding first
complete_finalize-again_example =
    complete_finalize-again (λ _. false) 30 taken video with_video refl refl (omega arith) refl
      tools (λ _. true) no_file false 99 true
