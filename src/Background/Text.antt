-- ===== src/Background/Text.antt =====
-- The texts of background/errors.go, and the libraries behind the runtime as parameters: `Library`
-- stands for strings.TrimSpace, fmt.Sprintf, encoding/json, crypto/sha256, the two regular
-- expressions of RedactDiagnostic, a search in lower case, and SQLite's age of a row in minutes.
use Prim.Native.String.{len, slice}
use text.Mathlib.Text.{◌==◌ as str_eq}
use videocms.Base.{ℕ, ◌-◌, Bool, ◌&&◌, Option, none, some, String, List, ltb, if◌then◌else◌}

pub record Library : Type 0 where
  pub trim_space : String → String
  pub sprintf : String → List ℕ → String
  pub dedupe_format : Option ℕ → String → ℕ → String
  pub marshal : String → Option String
  pub sha256_hex : String → String
  pub redact_urls : String → String
  pub redact_secrets : String → String
  pub lower_contains : String → String → Bool
  pub age_minutes : ℕ → ℕ → ℕ

unfoldable pub is_empty : String → Bool
is_empty s = str_eq s ""

-- value[:limit] of the trimmed text.
unfoldable pub bounded_message : Library → String → ℕ → String
bounded_message lib value limit =
    let value' = lib.trim_space value in
    if ltb 0 limit && ltb limit (len value') then slice value' 0 limit else value'

abbrev pub max_diagnostic_bytes : ℕ
max_diagnostic_bytes = 8192

-- The end of a long text is kept.
unfoldable pub redact_diagnostic : Library → String → String
redact_diagnostic lib value =
    let value' = lib.redact_secrets (lib.redact_urls value) in
    lib.trim_space (
      if ltb max_diagnostic_bytes (len value')
      then slice value' (len value' - max_diagnostic_bytes) (len value')
      else value')

-- A nil payload is the empty object.
unfoldable pub marshal_payload : Library → Option String → Option String
marshal_payload lib none = some "{}"
marshal_payload lib (some value) = lib.marshal value
