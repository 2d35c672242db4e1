-- ===== src/Uploads/Create.antt =====
-- preUploadCreate of services/tusupload/service.go: the hook that accepts an upload. createMu keeps two
-- of them from running at once. The identifiers and UUIDs that it makes are arguments.
use Prim.Native.String.{len}
use text.Mathlib.Text.{◌==◌ as str_eq}
use videocms.Base.{
  ℤ, pos, ℕ, suc, ◌+◌, Bool, true, false, not, ◌&&◌, ◌||◌, Option, none, some, String, List, [],
  ◌∷◌, ◌++◌, ◌==◌, ltb, if◌then◌else◌, count_where, first, select, length, all,
}
use videocms.Media.{
  UploadSession, UploadKind, UploadStatus, UploadPart, FolderShare, Store, Reply, accept, refuse,
  ◌>>=◌, ◌>>◌, unless, accept_if,
}
use videocms.Sharing.{validate_folder_destination, is_member}
use videocms.Uploads.Tools.{Settings, Tools, Context, FileInfo}
use videocms.Uploads.Limits.{
  enforce_max_upload_file_size, check_storage_quota, enforce_active_session_limit, is_partial_kind,
}
use videocms.Uploads.Guests.{
  validate_shared_destination, validate_upload_group, validate_shared_create, share_of,
  is_final_kind,
}

abbrev pub is_enabled : Option Bool → Bool
is_enabled (some true) = true
is_enabled _ = false

abbrev retention_period : ℕ
retention_period = 86400000000000

-- A size that is positive and within the setting.
unfoldable pub checked_size : Settings → ℤ → Reply ℕ
checked_size settings (pos size) =
    unless (ltb 0 size) 400
    >> unless (not (ltb 0 settings.max_upload_filesize && ltb settings.max_upload_filesize size))
        413
    >> accept size
checked_size settings _ = refuse 400

unfoldable pub checked_name : Tools → FileInfo → Reply String
checked_name tools info =
    let filename = tools.trim_space (info.metadata "filename") in
    let name = if str_eq filename "" then tools.trim_space (info.metadata "name") else filename in
    unless (not (str_eq name "" || ltb 128 (len name))) 400 >> accept name

unfoldable pub parse_optional_uint : Tools → String → Reply ℕ
parse_optional_uint tools value =
    let value' = tools.trim_space value in
    if str_eq value' "" then accept 0 else accept_if (tools.parse_uint value') 400

-- config.EXTENSIONS.
abbrev extensions : List String
extensions =
    "mp4" ∷ "mkv" ∷ "webm" ∷ "avi" ∷ "mov" ∷ "ts" ∷ "m4v" ∷ "3gp" ∷ "3g2" ∷ "wmv" ∷ "mpg" ∷ "mpeg"
    ∷ "asf" ∷ "flv" ∷ "f4v" ∷ "m2ts" ∷ "mts" ∷ "vob" ∷ "mxf" ∷ "divx" ∷ "ogv" ∷ "rm" ∷ "rmvb" ∷ "dv"
    ∷ []

unfoldable pub valid_shared_filename : Tools → String → Bool
valid_shared_filename tools name =
    ltb 0 (count_where (λ e. str_eq e (tools.extension name)) extensions)

unfoldable pub check_guest : Tools → Option FolderShare → ℕ → String → Store → Reply (Unit {0})
unfolding validate_shared_destination valid_shared_filename
check_guest tools none folder_id name store = accept tt
check_guest tools (some share) folder_id name store = do
  validate_shared_destination store share folder_id
  unless (valid_shared_filename tools name) 400

unfoldable pub upload_group : Tools → String → String → Reply String
upload_group tools fresh value =
    let value' = tools.trim_space value in
    let group = if str_eq value' "" then fresh else value' in
    unless (tools.is_uuid group) 400 >> accept group

unfoldable pub kind_of : FileInfo → UploadKind
kind_of info =
    if info.is_final
    then UploadKind.final
    else if info.is_partial
    then UploadKind.partial
    else UploadKind.single

-- A final upload joins partial ones, which have reserved its bytes.
abbrev pub quota_of : UploadKind → ℕ → ℕ
quota_of kind size = if is_final_kind kind then 0 else size

unfoldable pub new_session :
    ℕ → ℕ → ℕ → Context → String → UploadKind → String → ℕ → ℕ → ℕ → FileInfo → UploadSession
unfolding share_of
new_session now id tus_id context group kind name size folder_id user_id info = record {
  id = id;
  deleted = false;
  background_job_id = none;
  folder_share_id = (share_of context.share).0;
  folder_share_version = (share_of context.share).1;
  client_upload_uuid = group;
  tus_id = tus_id;
  kind = kind;
  status = UploadStatus.created;
  name = name;
  size = size;
  expected_size = 0;
  offset = 0;
  quota_bytes = quota_of kind size;
  part_count = length info.partial_uploads;
  storage_path = "";
  info_path = "";
  parent_folder_id = folder_id;
  user_id = user_id;
  file_id = 0;
  link_id = 0;
  expires_at = some (now + retention_period);
  completed_at = none;
  finalized_at = none;
  error = "";
}

-- The session as the transaction creates it: a guest's reserves its declared size.
unfoldable pub reserve :
    Tools → Settings → ℕ → Option FolderShare → String → UploadSession → Store → Reply UploadSession
unfolding validate_shared_create
reserve tools settings now none file_size session store = accept session
reserve tools settings now (some share) file_size session store =
    validate_shared_create tools settings now share file_size session store

-- A row that may be a part of the final upload.
unfoldable pub fits_final : Option FolderShare → UploadSession → UploadSession → Bool
fits_final share session p =
    p.user_id == session.user_id
    && (str_eq p.client_upload_uuid session.client_upload_uuid
        && (p.folder_share_id == session.folder_share_id
            && (str_eq p.folder_share_version session.folder_share_version
                && ((elim share [
                  | none ↦ true
                  | some _ ↦
                      p.parent_folder_id == session.parent_folder_id && str_eq p.name session.name
                ])
                    && is_partial_kind p.kind))))

-- The loop that records the parts in their order. A missing key of the Go map is a zero row.
unfoldable pub parts_of : ℕ → ℕ → List UploadSession → List ℕ → List UploadPart
parts_of session_id index partials [] = []
parts_of session_id index partials (tus_id ∷ rest) =
    record {
      upload_session_id = session_id;
      partial_upload_session_id =
          elim (first (λ (p : UploadSession). p.tus_id == tus_id) partials) [
            | none ↦ 0
            | some p ↦ p.id
          ];
      index = index;
      tus_id = tus_id;
    }
    ∷ parts_of session_id (suc index) partials rest

unfoldable pub join_partials :
    Option FolderShare → List ℕ → UploadSession → Store → Reply (List UploadPart)
unfolding fits_final parts_of select all
join_partials share partial_uploads session store = do
  let partials =
      select (λ (p : UploadSession). not p.deleted && is_member partial_uploads p.tus_id)
        store.sessions
  unless (length partials == length partial_uploads) 400
  unless (all (fits_final share session) partials) 400
  accept (parts_of session.id 0 partials partial_uploads)

abbrev pub no_parts : List UploadPart
no_parts = []

unfoldable pub create_session :
    Tools
    → Settings
    → ℕ
    → Option FolderShare
    → FileInfo
    → UploadSession
    → Store
    → Reply (UploadSession × Store)
unfolding validate_folder_destination reserve join_partials
create_session tools settings now share info session store = do
  validate_folder_destination store session.parent_folder_id session.user_id
  created ← reserve tools settings now share (info.metadata "file_size") session store
  let store' = record store { sessions = store.sessions ++ created ∷ [] }
  parts ←
      if is_final_kind session.kind
      then join_partials share info.partial_uploads created store'
      else accept no_parts
  accept (created, record store' { parts = store.parts ++ parts })

unfoldable pub pre_upload_create :
    Tools
    → Settings
    → ℕ
    → ℕ
    → ℕ
    → String
    → Context
    → FileInfo
    → Store
    → Reply (UploadSession × Store)
unfolding checked_size checked_name parse_optional_uint check_guest upload_group kind_of new_session
    enforce_max_upload_file_size check_storage_quota enforce_active_session_limit create_session
    validate_folder_destination validate_upload_group
pre_upload_create tools settings now id tus_id fresh context info store = do
  user_id ← accept_if context.user_id 403
  unless (is_enabled settings.upload_enabled) 403
  size ← checked_size settings info.size
  name ← checked_name tools info
  folder_id ← parse_optional_uint tools (info.metadata "parent_folder_id")
  validate_folder_destination store folder_id user_id
  check_guest tools context.share folder_id name store
  group ← upload_group tools fresh (info.metadata "client_upload_uuid")
  validate_upload_group context user_id group folder_id name store
  let kind = kind_of info
  enforce_max_upload_file_size settings user_id group kind size store
  if ltb 0 (quota_of kind size)
      then check_storage_quota user_id (quota_of kind size) store
      else accept tt
  enforce_active_session_limit settings user_id group store
  create_session tools settings now context.share info
      (new_session now id tus_id context group kind name size folder_id user_id info) store
