-- ===== src/Uploads/Tools.antt =====
-- What the uploads are given: the settings, the libraries behind them, and a request's context.
use videocms.Base.{ℤ, ℕ, Bool, Option, String, List}
use videocms.Media.{FolderShare}

-- A limit that is not positive is 0, which means none.
pub record Settings : Type 0 where
  pub upload_enabled : Option Bool
  pub max_upload_filesize : ℕ
  pub max_upload_sessions : ℕ

-- strings.TrimSpace, strconv.ParseUint and ParseInt, uuid.Parse, filepath.Ext in lower case without
-- its dot, the paths that filepath.Join makes, a link's creation key, and the file's UUID (a SHA-1).
pub record Tools : Type 0 where
  pub trim_space : String → String
  pub parse_uint : String → Option ℕ
  pub parse_int : String → Option ℤ
  pub is_uuid : String → Bool
  pub extension : String → String
  pub creation_key : ℕ → String → String
  pub file_uuid : ℕ → ℕ → String → ℕ
  pub tus_path : ℕ → String
  pub import_path : ℕ → String → String

-- The values of the request's context: the user, and the share that a guest came through.
pub record Context : Type 0 where
  pub user_id : Option ℕ
  pub share : Option FolderShare

-- The upload that tusd announces.
pub record FileInfo : Type 0 where
  pub size : ℤ
  pub metadata : String → String
  pub is_partial : Bool
  pub is_final : Bool
  pub partial_uploads : List ℕ

-- What an event of tusd says about an upload.
pub record EventInfo : Type 0 where
  pub id : ℕ
  pub offset : ℕ
  pub storage_path : String
  pub info_path : String
