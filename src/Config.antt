-- ===== src/Config.antt =====
-- internal/config/config.go: the configuration of a process. The values come from the environment;
-- `env.Parse`, which fills them in, is a parameter. Durations are kept, and nothing here reads them.
pub mod Keys
use bankstmt_analyzer.Prelude.{
  ℕ, ◌%◌, Bool, true, false, not, ◌&&◌, ◌||◌, List, [], ◌∷◌, ◌++◌, ◌==◌, leb, length, if◌then◌else◌,
}
use bankstmt_analyzer.Text.{Bytes, codes, bytes_eq, is_empty, join, quote}
use bankstmt_analyzer.Text.Decimal.{print_decimal}
use bankstmt_analyzer.Text.Space.{trim_space}
use bankstmt_analyzer.Go.{Error, plain, wrap, Result, ok, err}
use bankstmt_analyzer.Go.Integers.{ℤ, below, print_int}
use bankstmt_analyzer.Go.Results.{◌>>=◌, ◌>>◌}

abbrev pub api_key_length : ℕ
api_key_length = 32

abbrev pub env_production : Bytes
env_production = codes "production"

abbrev pub backend_local : Bytes
backend_local = codes "local"

abbrev pub backend_s3 : Bytes
backend_s3 = codes "s3"

pub record StorageConfig : Type 0 where
  pub backend : Bytes

pub record S3Config : Type 0 where
  pub endpoint : Bytes
  pub bucket : Bytes
  pub region : Bytes
  pub access_key_id : Bytes
  pub secret_access_key : Bytes
  pub use_path_style : Bool
  pub prefix : Bytes
  pub timeout : ℤ

pub record AzureOcr : Type 0 where
  pub endpoint : Bytes
  pub api_key : Bytes
  pub model : Bytes
  pub path : Bytes
  pub timeout : ℤ

pub record AzureOpenAi : Type 0 where
  pub endpoint : Bytes
  pub api_key : Bytes
  pub deployment : Bytes
  pub api_version : Bytes
  pub timeout : ℤ

pub record HttpConfig : Type 0 where
  pub read_header_timeout : ℤ
  pub write_timeout : ℤ
  pub idle_timeout : ℤ
  pub shutdown_timeout : ℤ
  pub cors_allowed_origins : List Bytes

pub record WorkerConfig : Type 0 where
  pub concurrency : ℤ
  pub max_retry : ℤ
  pub backoff_base : ℤ
  pub backoff_max : ℤ

pub record QueueConfig : Type 0 where
  pub name : Bytes
  pub lease_duration : ℤ
  pub poll_interval : ℤ

-- The limits before they are checked: the upload handler's are never negative.
pub record UploadSettings : Type 0 where
  pub max_files : ℤ
  pub max_file_bytes : ℤ

pub record Config : Type 0 where
  pub env : Bytes
  pub http_addr : Bytes
  pub api_key : Bytes
  pub log_level : Bytes
  pub database_url : Bytes
  pub migrate_on_start : Bool
  pub storage_dir : Bytes
  pub storage : StorageConfig
  pub s3 : S3Config
  pub ocr : AzureOcr
  pub open_ai : AzureOpenAi
  pub http : HttpConfig
  pub worker : WorkerConfig
  pub queue : QueueConfig
  pub upload : UploadSettings

-- `IsProduction`
unfoldable pub is_production : Config → Bool
unfolding bytes_eq
is_production c = bytes_eq c.env env_production

-- The loop of `Secrets`
unfoldable pub set_values : List Bytes → List Bytes
set_values [] = []
set_values (s ∷ rest) = if not (is_empty s) then s ∷ set_values rest else set_values rest

-- `Secrets`
unfoldable pub secrets : Config → List Bytes
unfolding set_values
secrets c =
    set_values
      (c.ocr.api_key ∷ c.open_ai.api_key ∷ c.database_url ∷ c.s3.secret_access_key ∷ c.api_key ∷ [])

-- A byte that `hex.DecodeString` takes.
abbrev pub is_hex : ℕ → Bool
is_hex c = leb b'0' c && leb c b'9' || leb b'a' c && leb c b'f' || leb b'A' c && leb c b'F'

abbrev pub all_hex : Bytes → Bool
all_hex [] = true
all_hex (c ∷ s) = is_hex c && all_hex s

-- `hex.DecodeString` returns no error: two digits for each byte.
abbrev decodes : Bytes → Bool
decodes s = all_hex s && length s % 2 == 0

abbrev check : Bool → Bytes → Result (Unit {0})
check true text = err (plain text)
check false text = ok tt

-- `validateAPIKey`
unfoldable pub validate_api_key : Bytes → Result (Unit {0})
unfolding print_decimal
validate_api_key key = do
  check (not (length key == api_key_length)) (
      codes "config: API_KEY must be "
      ++ (print_decimal api_key_length
          ++ (codes " hexadecimal characters, got " ++ print_decimal (length key))))
  check (not (decodes key)) (
      codes "config: API_KEY must be "
      ++ (print_decimal api_key_length ++ codes " hexadecimal characters"))

-- A name that joins the list of what is missing.
abbrev missing_if : Bytes → Bytes → List Bytes
unfolding trim_space
missing_if value name = if is_empty (trim_space value) then name ∷ [] else []

-- `validateStorage`
unfoldable pub validate_storage : Config → Result (Unit {0})
unfolding bytes_eq missing_if trim_space join
validate_storage c =
    let missing =
      missing_if c.s3.bucket (codes "S3_BUCKET")
      ++ (missing_if c.s3.access_key_id (codes "S3_ACCESS_KEY_ID")
          ++ missing_if c.s3.secret_access_key (codes "S3_SECRET_ACCESS_KEY")) in
    if bytes_eq c.storage.backend backend_local
    then check (is_empty (trim_space c.storage_dir))
        (codes "config: STORAGE_DIR is required when STORAGE_BACKEND is " ++ quote backend_local)
    else if bytes_eq c.storage.backend backend_s3
    then check (leb 1 (length missing)) (
        codes "config: "
        ++ (join missing (codes ", ")
            ++ (codes " required when STORAGE_BACKEND is " ++ quote backend_s3)))
    else err (
        plain (
          codes "config: STORAGE_BACKEND must be "
          ++ (quote backend_local
              ++ (codes " or "
                  ++ (quote backend_s3 ++ (codes ", got " ++ quote c.storage.backend))))))

abbrev at_least : Bytes → ℕ → ℤ → Result (Unit {0})
unfolding print_int print_decimal
at_least name least value = check (below value least) (
    codes "config: "
    ++ (name
        ++ (codes " must be >= " ++ (print_decimal least ++ (codes ", got " ++ print_int value)))))

-- `validate`
unfoldable pub validate : Config → Result (Unit {0})
unfolding validate_storage validate_api_key at_least
validate c = do
  validate_storage c
  validate_api_key c.api_key
  at_least (codes "UPLOAD_MAX_FILES") 1 c.upload.max_files
  at_least (codes "UPLOAD_MAX_FILE_BYTES") 1 c.upload.max_file_bytes
  at_least (codes "WORKER_CONCURRENCY") 1 c.worker.concurrency
  at_least (codes "WORKER_MAX_RETRY") 0 c.worker.max_retry

-- What `Load` makes of the environment that has been parsed.
unfoldable pub load : Result Config → Result Config
unfolding validate
load (err e) = err (wrap (codes "config: parse environment") e)
load (ok c) = do validate c; ok c
