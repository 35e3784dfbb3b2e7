-- ===== src/Storage/S3.antt =====
-- internal/storage/s3.go: the store in a bucket of an S3 service. The service's client, which is code of
-- another project, is a record of its calls; what the program relies on is `IsLawful`.
pub mod Laws
pub mod Open
use bankstmt_analyzer.Prelude.{
  ℕ, suc, ◌*◌, ◌^◌, ◌≡◌, ◌≢◌, Bool, true, false, ◌||◌, Option, none, some, ◌++◌, take, length, ltb,
  ◌==◌, if◌then◌else◌,
}
use bankstmt_analyzer.Text.{Bytes, codes, is_empty}
use bankstmt_analyzer.Text.Decimal.{print_decimal}
use bankstmt_analyzer.Text.Path.Clean.{path_clean}
use bankstmt_analyzer.Go.{plain, wrap, not_found, Error, Result, ok, err}
use bankstmt_analyzer.Go.Monad.{Exec, lift, raise, pure, ◌>>=◌, ◌>>◌}
use bankstmt_analyzer.Storage.{validate_key}
use bankstmt_analyzer.Storage.Local.{storing}

-- An error of the service's client with its text: of one of the two types for a missing object, with a status
-- code of the response, or any other.
pub data ServiceError : Type 0 where
  no_such_key not_found_type other_error : Bytes → ServiceError
  response_status : ℕ → Bytes → ServiceError

pub data Answer (A : Type 0) : Type 0 where
  answered : A → Answer A
  refused : ServiceError → Answer A

-- The four calls on the objects of one bucket.
pub record Client : Type 1 where
  pub State : Type 0
  pub put_object : Bytes → Bytes → State → Answer (Unit {0}) × State
  pub get_object : Bytes → State → Answer Bytes × State
  pub head_object : Bytes → State → Answer (Unit {0}) × State
  pub delete_object : Bytes → State → Answer (Unit {0}) × State

-- What is relied on of the calls: what each that is answered says of the object's content.
pub record IsLawful (C : Client) : Type 0 where
  pub contents : C.State → Bytes → Option Bytes
  pub put-contents :
      (name body : Bytes) (s t : C.State)
      → C.put_object name body s ≡ (answered tt, t)
      → contents t name ≡ some body
  pub get-contents :
      (name body : Bytes) (s t : C.State)
      → C.get_object name s ≡ (answered body, t)
      → contents s name ≡ some body
  pub head-contents :
      (name : Bytes) (s t : C.State)
      → C.head_object name s ≡ (answered tt, t)
      → contents s name ≢ none
  pub delete-contents :
      (name : Bytes) (s t : C.State)
      → C.delete_object name s ≡ (answered tt, t)
      → contents t name ≡ none

-- `isNotFound`
unfoldable pub is_not_found : ServiceError → Bool
is_not_found (no_such_key text) = true
is_not_found (not_found_type text) = true
is_not_found (response_status code text) = code == 404
is_not_found (other_error text) = false

-- `Error()` of a client's error
abbrev service_text : ServiceError → Bytes
service_text (no_such_key text) = text
service_text (not_found_type text) = text
service_text (response_status code text) = text
service_text (other_error text) = text

-- `maxObjectBytes`
abbrev pub max_object_bytes : ℕ
max_object_bytes = 256 * 2 ^ 20

module _ (C : Client) (prefix : Bytes) (max : ℕ) where
  -- `objectKey`, with `path.Join`
  unfoldable pub object_key : Bytes → Result Bytes
  unfolding validate_key path_clean
  object_key key = elim (validate_key key) [
    | err e ↦ err e
    | ok clean ↦
        if is_empty prefix then ok clean else ok (path_clean (prefix ++ (codes "/" ++ clean)))
  ]

  abbrev annotated : {A : Type 0} → Bytes → Answer A × C.State → Result A × C.State
  annotated text (answered a, s) = (ok a, s)
  annotated text (refused e, s) = (err (wrap text (plain (service_text e))), s)

  -- The same where a missing object has an error of its own.
  abbrev or_missing : {A : Type 0} → Bytes → Answer A × C.State → Result A × C.State
  or_missing text (answered a, s) = (ok a, s)
  or_missing text (refused e, s) =
      if is_not_found e
      then (err (wrap text not_found), s)
      else (err (wrap text (plain (service_text e))), s)

  -- What `io.ReadAll` has read, if it read to the end or to the limit: the error of a reader that breaks shows
  -- if it comes within the limit.
  abbrev read_body : Bytes → Option Bytes → Result Bytes
  read_body body none = ok (take (suc max) body)
  read_body body (some text) =
      if ltb max (length body) then ok (take (suc max) body) else err (plain text)

  abbrev send_body : Bytes → Bytes → Result Bytes → Exec C.State ℕ
  send_body key name (err e) = raise (wrap (storing (codes "put") key) e)
  send_body key name (ok body) =
      if ltb max (length body)
      then raise (
          plain (
            storing (codes "put") key
            ++ (codes ": object exceeds the " ++ (print_decimal max ++ codes " byte limit"))))
      else do
        (λ s. annotated (storing (codes "put") key) (C.put_object name body s))
        pure (length body)

  -- `Put`
  unfoldable pub put : Bytes → Bytes → Option Bytes → Exec C.State ℕ
  unfolding object_key print_decimal
  put key body broken = do name ← lift (object_key key); send_body key name (read_body body broken)

  -- `Get`, with the content that the reader gives
  unfoldable pub get : Bytes → Exec C.State Bytes
  unfolding object_key
  get key = do
    name ← lift (object_key key)
    λ s. or_missing (storing (codes "get") key) (C.get_object name s)

  -- `Delete`
  unfoldable pub delete : Bytes → Exec C.State (Unit {0})
  unfolding object_key
  delete key = do
    name ← lift (object_key key)
    (λ s. or_missing (storing (codes "delete") key) (C.head_object name s))
    λ s. annotated (storing (codes "delete") key) (C.delete_object name s)
