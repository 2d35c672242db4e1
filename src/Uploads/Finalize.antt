-- ===== src/Uploads/Finalize.antt =====
-- finalizeContext of services/tusupload/service.go: an uploaded file becomes a video. CreateFileContext
-- of logic/CreateFile.go is the argument `create`, and `commits` is BeginCommit's answer. The texts of
-- errors are kept without the values formatted into them.
use text.Mathlib.Text.{◌==◌ as str_eq}
use videocms.Base.{
  ℕ, Bool, true, false, not, ◌&&◌, Option, none, some, String, List, [], ◌∷◌, ◌==◌, ltb,
  if◌then◌else◌, count_where, first, select, update_where, is_some,
}
use videocms.Media.{
  UploadSession, UploadStatus, UploadLog, File, Link, Store, Disk, Reply, accept, refuse, ◌>>◌,
  unless, accept_if, has_session_id, update_session,
}
use videocms.Uploads.Limits.{is_partial_kind}
use videocms.Uploads.Tools.{Tools}
use videocms.Uploads.Expiry.{is_expired, expire_session, remove_files, remove_file}

-- The video, and whether a file of the same content was there.
abbrev pub CreateFile : Type 0
CreateFile = String → UploadSession → ℕ → Store → Store × Reply (Link × Bool)

abbrev pub is_ready : UploadStatus → Bool
is_ready UploadStatus.uploaded = true
is_ready UploadStatus.failed = true
is_ready _ = false

abbrev pub is_importing : UploadStatus → Bool
is_importing UploadStatus.importing = true
is_importing _ = false

unfoldable pub begin_import : UploadSession → UploadSession
begin_import s = record s { status = UploadStatus.importing }

-- `session` is the caller's copy; the row decides.
unfoldable pub transition_to_importing : UploadSession → Store → Reply Store
unfolding begin_import
transition_to_importing session store =
    let ready = λ (s : UploadSession). has_session_id session.id s && is_ready s.status in
    unless (is_ready session.status) 409
    >> unless (count_where ready store.sessions == 1) 409
    >> accept (record store { sessions = update_where ready begin_import store.sessions })

unfoldable pub fail : String → UploadSession → UploadSession
fail message s = record s { status = UploadStatus.failed; error = message }

unfoldable pub fail_finalize : UploadSession → String → Store → Store
unfolding fail update_session
fail_finalize session message store = update_session session.id (fail message) store

unfoldable pub find_finalized_upload : ℕ → ℕ → Store → Option Link
find_finalized_upload file_uuid user_id store =
    elim (first (λ (f : File). f.uuid == file_uuid && not f.deleted) store.files) [
      | none ↦ none
      | some file ↦
          first (λ (l : Link). l.file_id == file.id && (l.user_id == user_id && not l.deleted))
            store.links
    ]

-- Every row of the upload group, deleted or not.
unfoldable pub of_group : UploadSession → UploadSession → Bool
of_group session s =
    str_eq s.client_upload_uuid session.client_upload_uuid && s.user_id == session.user_id

unfoldable pub finish : ℕ → Link → UploadSession → UploadSession
finish now link s = record s {
  status = UploadStatus.done;
  file_id = link.file_id;
  link_id = link.id;
  finalized_at = some now;
  error = "";
  deleted = true;
}

unfoldable pub assign_log : Link → UploadLog → UploadLog
assign_log link l = record l { file_id = link.file_id }

unfoldable pub remove_all : (String → Bool) → List UploadSession → Disk → Disk
unfolding remove_files
remove_all stuck [] disk = disk
remove_all stuck (s ∷ rest) disk = remove_all stuck rest (remove_files stuck s disk)

unfoldable pub complete_finalize : (String → Bool) → ℕ → UploadSession → Link → Store → Store
unfolding of_group finish assign_log remove_all select
complete_finalize stuck now session link store =
    let group = select (of_group session) store.sessions in
    let in_log = λ (l : UploadLog).
      ltb 0 (count_where (λ (s : UploadSession). s.id == l.upload_session_id) group) in
    let sessions' = update_where (of_group session) (finish now link) store.sessions in
    record store {
      logs = update_where in_log (assign_log link) store.logs;
      sessions = sessions';
      disk = remove_all stuck (select (of_group session) sessions') store.disk;
    }

unfoldable pub rename : String → String → Disk → Disk
unfolding remove_file
rename from to disk p = if str_eq p to then disk from else remove_file from disk p

-- Unscoped: the row may be deleted.
unfoldable pub set_storage_path : ℕ → String → Store → Store
set_storage_path id path store = record store {
  sessions =
      update_where (λ (s : UploadSession). s.id == id)
        (λ (s : UploadSession). record s { storage_path = path }) store.sessions;
}

-- From the label importFile on.
unfoldable pub import_file :
    (String → Bool)
    → CreateFile
    → Bool
    → ℕ
    → ℕ
    → String
    → String
    → UploadSession
    → Store
    → Store × Reply Link
unfolding rename set_storage_path fail_finalize complete_finalize remove_file
import_file stuck create commits now file_uuid path destination session store =
    let moves = not (str_eq path destination) in
    if moves && stuck path
    then (fail_finalize session "failed to move uploaded file" store, refuse 500)
    else let moved =
        if moves then record store { disk = rename path destination store.disk } else store in
      let stored = set_storage_path session.id destination moved in
      if not commits
      then (stored, refuse 409)
      else let (made, reply) = create destination session file_uuid stored in
        elim reply [
          | refuse status ↦ (fail_finalize session "failed to create the file" made, refuse status)
          | accept (link, cloned) ↦
              let cleaned =
                if cloned && not (stuck destination)
                then record made { disk = remove_file destination made.disk }
                else made in
              (complete_finalize stuck now session link cleaned, accept link)
        ]

unfoldable pub mark_uploaded : UploadSession → UploadSession
mark_uploaded s = record s { status = UploadStatus.uploaded; offset = s.size }

-- A session whose file is there: it is taken for import, or it is one that an earlier attempt took.
unfoldable pub start_import :
    (String → Bool)
    → CreateFile
    → Bool
    → ℕ
    → ℕ
    → Bool
    → String
    → String
    → UploadSession
    → Store
    → Store × Reply Link
unfolding import_file mark_uploaded transition_to_importing update_session begin_import
start_import stuck create commits now file_uuid allow_resume path destination session store =
    if is_importing session.status
    then (if allow_resume
        then import_file stuck create commits now file_uuid path destination session store
        else (store, refuse 409))
    else let ready = is_ready session.status in
      let session' = if ready then session else mark_uploaded session in
      let store' = if ready then store else update_session session.id mark_uploaded store in
      elim (transition_to_importing session' store') [
        | refuse status ↦ (store', refuse status)
        | accept taken ↦
            import_file stuck create commits now file_uuid path destination (begin_import session')
              taken
      ]

-- The file on the disk, at its place for the import or where tusd has left it.
unfoldable pub import_upload :
    Tools
    → (String → Bool)
    → CreateFile
    → Bool
    → ℕ
    → ℕ
    → Bool
    → UploadSession
    → Store
    → Store × Reply Link
unfolding start_import fail_finalize
import_upload tools stuck create commits now file_uuid allow_resume session store =
    let destination = tools.import_path file_uuid session.name in
    let stored =
      if str_eq session.storage_path ""
      then tools.tus_path session.tus_id
      else session.storage_path in
    let path = if is_some (store.disk destination) then destination else stored in
    elim (store.disk path) [
      | none ↦ (fail_finalize session "uploaded file not found" store, refuse 404)
      | some size ↦
          if size == session.size
          then start_import stuck create commits now file_uuid allow_resume path destination session
              store
          else (fail_finalize session "uploaded file size mismatch" store, refuse 409)
    ]

abbrev link_found : ℕ → Store → Reply Link
link_found id store = accept_if (first (λ (l : Link). l.id == id && not l.deleted) store.links) 500

unfoldable pub finalize_context :
    Tools → (String → Bool) → CreateFile → Bool → ℕ → Bool → ℕ → ℕ → Store → Store × Reply Link
unfolding find_finalized_upload complete_finalize is_expired expire_session import_upload
finalize_context tools stuck create commits now allow_resume tus_id user_id store =
    elim (first (λ (s : UploadSession). s.tus_id == tus_id) store.sessions) [
      | none ↦ (store, refuse 404)
      | some session ↦
          if not (session.user_id == user_id)
          then (store, refuse 403)
          else if is_partial_kind session.kind
          then (store, refuse 400)
          else if ltb 0 session.link_id
          then (store, link_found session.link_id store)
          else let file_uuid = tools.file_uuid user_id session.id session.client_upload_uuid in
            elim (find_finalized_upload file_uuid user_id store) [
              | some link ↦ (complete_finalize stuck now session link store, accept link)
              | none ↦
                  if is_expired now session
                  then ((expire_session stuck now session store).0, refuse 410)
                  else import_upload tools stuck create commits now file_uuid allow_resume session
                      store
            ]
    ]
