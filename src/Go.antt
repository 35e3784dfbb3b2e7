-- ===== src/Go.antt =====
-- What every package of the program shares of Go: errors, and calls that may return one.
pub mod Monad
pub mod Hoare
pub mod Keeps
pub mod Results
pub mod Float
pub mod Integers
use bankstmt_analyzer.Prelude.{ℕ, Bool, true, false, Option, none, some, ◌++◌}
use bankstmt_analyzer.Text.{Bytes, codes}

-- An error value. `wrap` is `fmt.Errorf("text: %w", err)`, which `errors.Is` and `errors.As` look
-- through; `plain` is any error with a text only; `marked` is an error of a client type that has a
-- method `Retryable`; the others are the sentinels and types that the program tests for.
pub data Error : Type 0 where
  plain : Bytes → Error
  wrap : Bytes → Error → Error
  marked : Bool → Bytes → Error
  max_bytes : ℕ → Error
  no_rows not_found : Error

-- `Error()`
unfoldable pub error_text : Error → Bytes
error_text (plain text) = text
error_text (wrap text cause) = text ++ (codes ": " ++ error_text cause)
error_text (marked retry text) = text
error_text (max_bytes limit) = codes "http: request body too large"
error_text no_rows = codes "no rows in result set"
error_text not_found = codes "storage: object not found"

-- `errors.Is(err, storage.ErrNotFound)`
unfoldable pub is_blob_not_found : Error → Bool
is_blob_not_found not_found = true
is_blob_not_found (wrap text cause) = is_blob_not_found cause
is_blob_not_found _ = false

-- `errors.As(err, &maxBytes)` with the limit that it finds
unfoldable pub as_max_bytes : Error → Option ℕ
as_max_bytes (max_bytes limit) = some limit
as_max_bytes (wrap text cause) = as_max_bytes cause
as_max_bytes _ = none

-- A call's value and error: Go's pair, of which one is meant.
pub data Result {ℓ} (A : Type ℓ) : Type ℓ where
  ok : A → Result A
  err : Error → Result A
