-- ===== src/Uploads/Guests.antt =====
-- The checks of services/tusupload/shared.go: what a guest may upload through a folder share.
use text.Mathlib.Text.{◌==◌ as str_eq}
use videocms.Base.{
  pos, ℕ, ◌+◌, ◌-◌, Bool, true, false, not, ◌&&◌, ◌||◌, Option, none, some, String, List, [], ◌∷◌,
  ◌==◌, ltb, if◌then◌else◌, select,
}
use videocms.Media.{
  UploadSession, UploadKind, UploadStatus, FolderShare, Store, Reply, accept, refuse, ◌>>=◌, ◌>>◌,
  unless,
}
use videocms.Sharing.{contains_folder}
use videocms.Sharing.Capacity.{in_group, upload_capacity}
use videocms.Uploads.Limits.{is_active_of, is_partial_kind}
use videocms.Uploads.Tools.{Settings, Tools, Context}

unfoldable pub validate_shared_destination : Store → FolderShare → ℕ → Reply (Unit {0})
unfolding contains_folder
validate_shared_destination store share folder_id = do
  unless (not (not share.allow_read && not (folder_id == share.folder_id))) 403
  unless (contains_folder store share folder_id) 403

-- The owner of the account, who has no share in the context, may manage every session.
unfoldable pub authorize_shared_session : Context → UploadSession → Store → Reply (Unit {0})
unfolding validate_shared_destination
authorize_shared_session context session store = elim context.share [
  | none ↦ accept tt
  | some share ↦
      unless
        (session.folder_share_id == share.id
          && str_eq session.folder_share_version share.access_version)
        403
      >> validate_shared_destination store share session.parent_folder_id
]

abbrev pub is_done : UploadStatus → Bool
is_done UploadStatus.done = true
is_done _ = false

-- The loop of validateUploadGroup: the first row that does not fit decides.
unfoldable pub check_group : ℕ → String → ℕ → String → List UploadSession → Reply (Unit {0})
check_group share_id version folder_id name [] = accept tt
check_group share_id version folder_id name (s ∷ rest) =
    unless
      (s.folder_share_id == share_id
        && (str_eq s.folder_share_version version
            && (share_id == 0 || (s.parent_folder_id == folder_id && str_eq s.name name))))
      403
    >> unless (share_id == 0 || not (is_done s.status)) 409
    >> check_group share_id version folder_id name rest

unfoldable pub share_of : Option FolderShare → ℕ × String
share_of none = (0, "")
share_of (some share) = (share.id, share.access_version)

-- Deleted rows belong to the group as well.
unfoldable pub validate_upload_group : Context → ℕ → String → ℕ → String → Store → Reply (Unit {0})
unfolding check_group share_of select
validate_upload_group context user_id group folder_id name store =
    check_group (share_of context.share).0 (share_of context.share).1 folder_id name
      (select (λ s. s.user_id == user_id && in_group group s) store.sessions)

unfoldable pub validate_shared_capacity :
    Tools → Settings → ℕ → Store → FolderShare → ℕ → String → Reply (Unit {0})
unfolding upload_capacity
validate_shared_capacity tools settings now store share size exclude_group = do
  unless
      (not (
        ltb 0 share.max_video_size && ltb share.max_video_size size
        || ltb 0 settings.max_upload_filesize && ltb settings.max_upload_filesize size))
      413
  unless
      (share.max_folder_size == 0
        || not
            (ltb (upload_capacity tools.creation_key now store share exclude_group).remaining size))
      507

-- The size of the whole video that the guest declares.
unfoldable pub declared_size : Tools → UploadKind → ℕ → String → Reply ℕ
declared_size tools kind size value =
    if str_eq value ""
    then unless (not (is_partial_kind kind)) 400 >> accept size
    else elim (tools.parse_int value) [
      | some (pos n) ↦ unless (ltb 0 n) 400 >> accept n
      | _ ↦ refuse 400
    ]

abbrev pub is_single : UploadKind → Bool
is_single UploadKind.single = true
is_single _ = false

-- The loop of validateSharedCreate over the group: the bytes of its partial resources. They do not
-- pass `expected`, so the code's difference is not negative.
unfoldable pub partial_bytes : UploadKind → ℕ → ℕ → List UploadSession → Reply ℕ
partial_bytes kind expected bytes [] = accept bytes
partial_bytes kind expected bytes (part ∷ rest) =
    unless (not (is_single kind || (is_partial_kind kind && not (is_partial_kind part.kind)))) 409
    >> unless (part.expected_size == expected) 400
    >> unless (not (is_partial_kind part.kind && ltb (expected - bytes) part.size)) 400
    >> partial_bytes kind expected (if is_partial_kind part.kind then bytes + part.size else bytes)
        rest

abbrev pub is_final_kind : UploadKind → Bool
is_final_kind UploadKind.final = true
is_final_kind _ = false

-- The session with the size that it reserves.
unfoldable pub validate_shared_create :
    Tools → Settings → ℕ → FolderShare → String → UploadSession → Store → Reply UploadSession
unfolding declared_size partial_bytes is_active_of validate_shared_capacity select
validate_shared_create tools settings now share file_size session store = do
  expected ← declared_size tools session.kind session.size file_size
  unless
      (not (
        (not (is_partial_kind session.kind) && not (expected == session.size))
        || ltb expected session.size))
      400
  bytes ← partial_bytes session.kind expected 0 (
      select (λ s. is_active_of session.user_id s && in_group session.client_upload_uuid s)
        store.sessions)
  unless (not (is_partial_kind session.kind && ltb (expected - bytes) session.size)) 400
  unless (not (is_final_kind session.kind && not (bytes == expected))) 400
  validate_shared_capacity tools settings now store share expected session.client_upload_uuid
  accept (record session { expected_size = expected })
