-- ===== src/Uploads/Videos.antt =====
-- What an import adds to the tables: CreateFileContext (logic/CreateFile.go) where its creation key is
-- new and no file is cloned, CloneFileByHash (logic/HashCloneFile.go) from its choice of a file on, and
-- CheckStorageQuota (logic/User.go), which stands in each between two checks of the folder. The file's
-- hash and what FFmpeg finds in it are left out, so whether a file is cloned, and which one, is the
-- caller's choice here. New identifiers are arguments.
use text.Mathlib.Text.{◌==◌ as str_eq}
use videocms.Base.{
  ℕ, Bool, false, not, ◌&&◌, ◌||◌, String, [], ◌∷◌, ◌++◌, ◌==◌, if◌then◌else◌, first, select,
  sum_of, add64, gt64,
}
use videocms.Media.{
  UploadSession, User, File, Link, Store, Reply, accept, ◌>>=◌, ◌>>◌, unless, accept_if,
}
use videocms.Sharing.{validate_folder_destination}
use videocms.Sharing.Capacity.{in_group}
use videocms.Uploads.Tools.{Tools}
use videocms.Uploads.Limits.{sql_sum, is_active_of, used_storage}

-- The live rows of the user in an active status, of another group than the one excluded.
unfoldable pub is_outside : ℕ → String → UploadSession → Bool
unfolding is_active_of
is_outside user_id group s = is_active_of user_id s && (str_eq group "" || not (in_group group s))

unfoldable pub pending_outside : ℕ → String → Store → ℕ
unfolding is_outside select sum_of
pending_outside user_id group store =
    sum_of (λ (s : UploadSession). s.quota_bytes) (select (is_outside user_id group) store.sessions)

unfoldable pub check_quota_outside : ℕ → ℕ → String → Store → Reply (Unit {0})
unfolding used_storage pending_outside add64 gt64
check_quota_outside user_id additional group store = do
  user ← accept_if (first (λ (u : User). u.id == user_id) store.users) 500
  if user.storage == 0 then accept tt else do
    used ← sql_sum (used_storage user_id store)
    pending ← sql_sum (pending_outside user_id group store)
    unless (not (gt64 (add64 (add64 used pending) additional) user.storage)) 403

unfoldable pub video_link : Tools → ℕ → String → ℕ → UploadSession → Link
video_link tools link_id link_uuid file_id session = record {
  id = link_id;
  deleted = false;
  uuid = link_uuid;
  user_id = session.user_id;
  file_id = file_id;
  parent_folder_id = session.parent_folder_id;
  creation_key = tools.creation_key session.user_id session.client_upload_uuid;
}

unfoldable pub create_video :
    Tools → ℕ → String → ℕ → ℕ → UploadSession → Store → Reply (Link × Store)
unfolding check_quota_outside validate_folder_destination video_link
create_video tools link_id link_uuid file_id file_uuid session store =
    let link = video_link tools link_id link_uuid file_id session in
    let file : File = record {
      id = file_id;
      deleted = false;
      uuid = file_uuid;
      size = session.size;
    } in
    validate_folder_destination store session.parent_folder_id session.user_id
    >> check_quota_outside session.user_id session.size session.client_upload_uuid store
    >> validate_folder_destination store session.parent_folder_id session.user_id
    >> accept
        (link, record store { files = store.files ++ file ∷ []; links = store.links ++ link ∷ [] })

unfoldable pub clone_video :
    Tools → ℕ → String → File → UploadSession → Store → Reply (Link × Store)
unfolding check_quota_outside validate_folder_destination video_link
clone_video tools link_id link_uuid file session store =
    let link = video_link tools link_id link_uuid file.id session in
    validate_folder_destination store session.parent_folder_id session.user_id
    >> check_quota_outside session.user_id file.size session.client_upload_uuid store
    >> validate_folder_destination store session.parent_folder_id session.user_id
    >> accept (link, record store { links = store.links ++ link ∷ [] })
