-- ===== src/Storage/Local/RoundTrip.antt =====
-- What is put into the store in a directory (internal/storage/local.go) is what is got from it.
use bankstmt_analyzer.Prelude.{◌≡◌, refl, ap, ◌∙◌, false, Option, none, some, List, [], ◌∷◌, length}
use bankstmt_analyzer.Text.{Bytes, codes, bytes_eq}
use bankstmt_analyzer.Go.{wrap, not_found, ok, err}
use bankstmt_analyzer.World.{find_blob, remove_blob}
use bankstmt_analyzer.Storage.Objects.{Objects, system, find-own, find-removed, find-kept}
use bankstmt_analyzer.Storage.Local.{storing, resolve, write_file, clean_up, put, get, delete}

-- The file system does as it is told.
abbrev pub quiet : List (Bytes × Bytes) → Objects
quiet objects = record { objects = objects; faults = [] }

module _ (root key path : Bytes) (objects : List (Bytes × Bytes))
    (resolved : resolve root key ≡ ok path) where
  get-eq :
      (found : Option Bytes)
      → find_blob path objects ≡ found
      → get root none key (quiet objects) ≡ (
        (elim found [
          | none ↦ err (wrap (storing (codes "get") key) not_found)
          | some body ↦ ok body
        ]),
        quiet objects,
      )
  unfolding get system
  get-eq none h = rw (resolved, h) refl
  get-eq (some body) h = rw (resolved, h) refl

  delete-eq :
      (body : Bytes)
      → find_blob path objects ≡ some body
      → delete root none key (quiet objects) ≡ (ok tt, quiet (remove_blob path objects))
  unfolding delete system
  delete-eq body h = rw (resolved, h) refl

-- With a file system that does as it is told, an object that was put under a valid key is got back as it
-- was put, and is not found once it has been deleted.
pub put-get :
    (root key path tmp body : Bytes) (objects : List (Bytes × Bytes))
    → resolve root key ≡ ok path
    → bytes_eq tmp path ≡ false
    → (stored : List (Bytes × Bytes)) × (put root none tmp key body none (quiet objects)
        ≡ (ok (length body), quiet stored))
      × (get root none key (quiet stored) ≡ (ok body, quiet stored))
      × ((get root none key (delete root none key (quiet stored)).1).0
          ≡ err (wrap (storing (codes "get") key) not_found))
unfolding put write_file clean_up system
put-get root key path tmp body objects resolved other =
    let stored = remove_blob tmp (
      (path, body)
      ∷ remove_blob path (
          remove_blob tmp ((tmp, body) ∷ remove_blob tmp ((tmp, []) ∷ remove_blob tmp objects)))) in
    let found : find_blob path stored ≡ some body =
      find-kept tmp path _ other ∙ find-own path body _ in
    (
      stored,
      rw (resolved, find-own tmp body (remove_blob tmp ((tmp, []) ∷ remove_blob tmp objects))) refl,
      get-eq root key path stored resolved (some body) found,
      ap (λ s. (get root none key s.1).0) (delete-eq root key path stored resolved body found)
          ∙ ap (λ s. s.0)
              (get-eq root key path (remove_blob path stored) resolved none
                (find-removed path stored)),
    )
