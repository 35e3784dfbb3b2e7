-- ===== src/World.antt =====
-- What the handlers and the pipeline change: the database, the stored files, and the documents that
-- were sent to the OCR service. The blob store is the one that the interface in
-- internal/storage/storage.go promises: a map from keys to contents, whose calls may fail.
use bankstmt_analyzer.Prelude.{Option, none, some, List, [], ◌∷◌, if◌then◌else◌}
use bankstmt_analyzer.Text.{Bytes, bytes_eq}
use bankstmt_analyzer.Go.{plain, not_found, ok, err}
use bankstmt_analyzer.Go.Monad.{Exec, pure, raise, gets, modify, ◌>>=◌, ◌>>◌}
use bankstmt_analyzer.Db.{Db}
use bankstmt_analyzer.Db.Queries.{Query}

-- `blob_faults` says of each call of the blob store to come whether it fails, with which message.
pub record World : Type 0 where
  pub db : Db
  pub blobs : List (Bytes × Bytes)
  pub blob_faults : List (Option Bytes)
  pub ocr_requests : List Bytes

-- A call of the store on the database.
abbrev pub query : {A : Type 0} → Query A → Exec World A
query q w = let (r, db') = q w.db in (r, record w { db = db' })

unfoldable pub find_blob : Bytes → List (Bytes × Bytes) → Option Bytes
unfolding bytes_eq
find_blob key [] = none
find_blob key ((k, body) ∷ rest) = if bytes_eq k key then some body else find_blob key rest

unfoldable pub remove_blob : Bytes → List (Bytes × Bytes) → List (Bytes × Bytes)
unfolding bytes_eq
remove_blob key [] = []
remove_blob key ((k, body) ∷ rest) =
    if bytes_eq k key then remove_blob key rest else (k, body) ∷ remove_blob key rest

-- A call reaches the store, or fails.
unfoldable pub reach : Exec World (Unit {0})
reach w = elim w.blob_faults [
  | [] ↦ (ok tt, w)
  | none ∷ rest ↦ (ok tt, record w { blob_faults = rest })
  | some text ∷ rest ↦ (err (plain text), record w { blob_faults = rest })
]

abbrev found : Option Bytes → Exec World Bytes
found none = raise not_found
found (some body) = pure body

-- `Get`
unfoldable pub get_blob : Bytes → Exec World Bytes
unfolding reach find_blob
get_blob key = do reach; found (← gets (λ w. find_blob key w.blobs))

-- `Put`, which replaces what is there
unfoldable pub put_blob : Bytes → Bytes → Exec World (Unit {0})
unfolding reach remove_blob
put_blob key body = do
  reach
  modify (λ w. record w { blobs = (key, body) ∷ remove_blob key w.blobs })

-- `Delete`
unfoldable pub delete_blob : Bytes → Exec World (Unit {0})
unfolding reach find_blob remove_blob
delete_blob key = do
  reach
  found (← gets (λ w. find_blob key w.blobs))
  modify (λ w. record w { blobs = remove_blob key w.blobs })
