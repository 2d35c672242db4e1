-- ===== src/Media.antt =====
-- The rows of models/*.go that the uploads, the folder shares and the folders read and write, with the
-- columns that they use, and the disk. An
-- identifier is a number and 0 stands for none, as in gorm. A row with `deleted` set is one whose
-- DeletedAt is set, which only an Unscoped query sees. An int64 that is a size is a number.
use videocms.Base.{
  ℕ, ◌≡◌, refl, Bool, true, false, not, ◌&&◌, Option, none, some, String, List, ◌==◌, update_where,
}

pub data UploadKind : Type 0 where
  single partial final : UploadKind

pub data UploadStatus : Type 0 where
  created uploading uploaded importing done failed canceled expired : UploadStatus

pub record UploadSession : Type 0 where
  pub id : ℕ
  pub deleted : Bool
  pub background_job_id : Option ℕ
  pub folder_share_id : ℕ
  pub folder_share_version : String
  pub client_upload_uuid : String
  pub tus_id : ℕ
  pub kind : UploadKind
  pub status : UploadStatus
  pub name : String
  pub size : ℕ
  pub expected_size : ℕ
  pub offset : ℕ
  pub quota_bytes : ℕ
  pub part_count : ℕ
  pub storage_path : String
  pub info_path : String
  pub parent_folder_id : ℕ
  pub user_id : ℕ
  pub file_id : ℕ
  pub link_id : ℕ
  pub expires_at : Option ℕ
  pub completed_at : Option ℕ
  pub finalized_at : Option ℕ
  pub error : String

pub record UploadPart : Type 0 where
  pub upload_session_id : ℕ
  pub partial_upload_session_id : ℕ
  pub index : ℕ
  pub tus_id : ℕ

pub record UploadLog : Type 0 where
  pub user_id : ℕ
  pub file_id : ℕ
  pub upload_session_id : ℕ
  pub bytes : ℕ

pub record User : Type 0 where
  pub id : ℕ
  -- An int64 by its bits: 0 is no limit, and a negative one is 2 ^ 63 or more.
  pub storage : ℕ
  pub upload_sessions_max : ℕ

pub record Folder : Type 0 where
  pub id : ℕ
  pub deleted : Bool
  pub user_id : ℕ
  pub parent_folder_id : ℕ

pub record File : Type 0 where
  pub id : ℕ
  pub deleted : Bool
  pub uuid : ℕ
  pub size : ℕ

pub record Link : Type 0 where
  pub id : ℕ
  pub deleted : Bool
  pub uuid : String
  pub user_id : ℕ
  pub file_id : ℕ
  pub parent_folder_id : ℕ
  pub creation_key : String

pub record FolderShare : Type 0 where
  pub id : ℕ
  pub token : String
  pub user_id : ℕ
  pub folder_id : ℕ
  pub allow_read : Bool
  pub allow_upload : Bool
  pub max_video_size : ℕ
  pub max_folder_size : ℕ
  pub access_version : String
  pub expires_at : Option ℕ

-- The size of the file at a path, if there is one.
abbrev pub Disk : Type 0
Disk = String → Option ℕ

pub record Store : Type 0 where
  pub users : List User
  pub folders : List Folder
  pub files : List File
  pub links : List Link
  pub shares : List FolderShare
  pub sessions : List UploadSession
  pub parts : List UploadPart
  pub logs : List UploadLog
  pub disk : Disk

-- What a request comes to: a value, or the HTTP status that refuses it.
pub data Reply {ℓ} (V : Type ℓ) : Type ℓ where
  accept : V → Reply V
  refuse : ℕ → Reply V

infixl 5 ◌>>=◌ ◌>>◌
abbrev pub ◌>>=◌ {ℓ κ} : {V : Type ℓ} {W : Type κ} → Reply V → (V → Reply W) → Reply W
reply >>= next = elim reply [ accept v ↦ next v | refuse status ↦ refuse status ]

abbrev pub ◌>>◌ {κ} : {W : Type κ} → Reply (Unit {0}) → Reply W → Reply W
check >> next = check >>= λ _. next

abbrev pub unless : Bool → ℕ → Reply (Unit {0})
unless true status = accept tt
unless false status = refuse status

abbrev pub accept_if {ℓ} : {V : Type ℓ} → Option V → ℕ → Reply V
accept_if none status = refuse status
accept_if (some v) status = accept v

-- What an accepted request has accepted on the way.
pub accept->>= {ℓ κ} :
    {V : Type ℓ} {W : Type κ} (reply : Reply V) (next : V → Reply W) {w : W}
    → (reply >>= next) ≡ accept w
    → (v : V) × (reply ≡ accept v) × (next v ≡ accept w)
accept->>= (accept v) next h = (v, refl, h)
accept->>= (refuse status) next h = cc

abbrev pub has_session_id : ℕ → UploadSession → Bool
has_session_id id s = s.id == id && not s.deleted

abbrev pub has_tus_id : ℕ → UploadSession → Bool
has_tus_id tus_id s = s.tus_id == tus_id && not s.deleted

-- Model(&session).Updates: the live row of the identifier.
unfoldable pub update_session : ℕ → (UploadSession → UploadSession) → Store → Store
update_session id f store = record store {
  sessions = update_where (has_session_id id) f store.sessions;
}
