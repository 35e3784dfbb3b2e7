-- ===== src/Storage/S3/Open.antt =====
-- Building the store in a bucket (`NewS3` and `checkBucket`, internal/storage/s3.go). What the service's library
-- answers to the configuration and to the check of the bucket are arguments.
use bankstmt_analyzer.Prelude.{ℕ, Bool, Option, none, some, ◌++◌, if◌then◌else◌}
use bankstmt_analyzer.Text.{Bytes, codes, is_empty, quote}
use bankstmt_analyzer.Text.Space.{trim_space}
use bankstmt_analyzer.Text.Trim.{trim}
use bankstmt_analyzer.Go.{plain, wrap, Result, ok, err}
use bankstmt_analyzer.Config.{S3Config}
use bankstmt_analyzer.Storage.S3.{max_object_bytes}

-- `S3`: the client is known by the endpoint that it is told, if any, and by how it names the bucket.
pub record S3 : Type 0 where
  pub base_endpoint : Option Bytes
  pub use_path_style : Bool
  pub bucket : Bytes
  pub prefix : Bytes
  pub max_object_bytes : ℕ

-- `checkBucket`
unfoldable pub check_bucket : Bytes → Result (Unit {0}) → Result (Unit {0})
check_bucket bucket (ok _) = ok tt
check_bucket bucket (err e) =
    err (wrap (codes "storage: bucket " ++ (quote bucket ++ codes " is not reachable")) e)

abbrev built : S3 → Result (Unit {0}) → Result S3
built store (ok _) = ok store
built store (err e) = err e

-- `NewS3`
unfoldable pub new_s3 : S3Config → Result (Unit {0}) → (S3 → Result (Unit {0})) → Result S3
unfolding trim_space trim check_bucket
new_s3 cfg loaded head_bucket =
    let endpoint = trim_space cfg.endpoint in
    let store : S3 = record {
      base_endpoint = if is_empty endpoint then none else some endpoint;
      use_path_style = cfg.use_path_style;
      bucket = cfg.bucket;
      prefix = trim (trim_space cfg.prefix) b'/';
      max_object_bytes = max_object_bytes;
    } in
    if is_empty (trim_space cfg.bucket)
    then err (plain (codes "storage: S3 bucket must not be empty"))
    else elim loaded [
      | err e ↦ err (wrap (codes "storage: load AWS configuration") e)
      | ok _ ↦ built store (check_bucket cfg.bucket (head_bucket store))
    ]
