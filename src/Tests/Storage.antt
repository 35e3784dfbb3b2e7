-- ===== src/Tests/Storage.antt =====
-- Concrete runs of the stores and of the test on keys.
use bankstmt_analyzer.Prelude.{
  ◌≤◌, ◌≡◌, ◌≢◌, ◌∙◌, refl, ap, sym, Bool, true, false, Option, none, some, List, [], ◌∷◌, length,
  All, arith,
}
use bankstmt_analyzer.Text.{Bytes, codes, join, bytes_eq}
use bankstmt_analyzer.Text.Path.Clean.{IsName, or_dot}
use bankstmt_analyzer.Go.{ok, err, wrap, not_found}
use bankstmt_analyzer.World.{find_blob, remove_blob}
use bankstmt_analyzer.Storage.{validate_key}
use bankstmt_analyzer.Storage.Keys.{validate_key-names}
use bankstmt_analyzer.Storage.Objects.{find-own, find-removed}
use bankstmt_analyzer.Storage.Local.{storing, resolve, put, get, delete}
use bankstmt_analyzer.Storage.Local.Laws.{put-keeps}
use bankstmt_analyzer.Storage.Local.RoundTrip.{quiet, put-get}
use bankstmt_analyzer.Storage.S3
use bankstmt_analyzer.Storage.S3.{Client, Answer, answered, refused, IsLawful, no_such_key}
use bankstmt_analyzer.Storage.S3.Laws.{put-get_bucket}

abbrev key : Bytes
key = codes "uploads/a.pdf"

backslashes : validate_key (codes "uploads\\.\\a.pdf") ≡ ok key
unfolding validate_key
backslashes = refl

nested_traversal :
    (elim (validate_key (codes "uploads/../../escaped.pdf")) as (λ _. Bool) [
      | ok _ ↦ true
      | err _ ↦ false
    ])
    ≡ false
unfolding validate_key
nested_traversal = refl

validate_key-names_example :
    (es : List Bytes) × All IsName es × (key ≡ or_dot (join es (codes "/")))
unfolding validate_key
validate_key-names_example = validate_key-names (codes "uploads\\.\\a.pdf") refl

abbrev root : Bytes
root = codes "/data"

abbrev path : Bytes
path = codes "/data/uploads/a.pdf"

abbrev tmp : Bytes
tmp = codes "/data/uploads/.partial-1"

abbrev stored : List (Bytes × Bytes)
stored = (path, codes "old") ∷ []

-- The reader breaks after two bytes.
put-keeps_example :
    find_blob path
      (put root none tmp key (codes "ne") (some (codes "reset")) (quiet stored)).1.objects
    ≡ find_blob path stored
unfolding put resolve bytes_eq
put-keeps_example =
    put-keeps root none tmp key (codes "ne") (some (codes "reset")) (quiet stored) path refl refl

put-get_example :
    (after : List (Bytes × Bytes)) × (put root none tmp key (codes "new") none (quiet stored)
      ≡ (ok 3, quiet after))
    × (get root none key (quiet after) ≡ (ok (codes "new"), quiet after))
    × ((get root none key (delete root none key (quiet after)).1).0
        ≡ err (wrap (storing (codes "get") key) not_found))
unfolding resolve bytes_eq
put-get_example = put-get root key path tmp (codes "new") stored refl refl

-- A service that keeps the objects of a bucket, and always answers.
abbrev Bucket : Type 0
Bucket = List (Bytes × Bytes)

abbrev answer_of : Option Bytes → Answer Bytes
answer_of none = refused (no_such_key [])
answer_of (some body) = answered body

abbrev presence_of : Option Bytes → Answer (Unit {0})
presence_of none = refused (no_such_key [])
presence_of (some body) = answered tt

abbrev service : Client
service = record {
  State = Bucket;
  put_object = λ name body s. (answered tt, (name, body) ∷ s);
  get_object = λ name s. (answer_of (find_blob name s), s);
  head_object = λ name s. (presence_of (find_blob name s), s);
  delete_object = λ name s. (answered tt, remove_blob name s);
}

answer_of-eq : (o : Option Bytes) {body : Bytes} → answer_of o ≡ answered body → o ≡ some body
answer_of-eq none h = ground arith
answer_of-eq (some b) h = ground arith

presence_of-eq : (o : Option Bytes) → presence_of o ≡ answered tt → o ≢ none
presence_of-eq none h = ground arith
presence_of-eq (some b) h = ground arith

service-IsLawful : IsLawful service
service-IsLawful = record {
  contents = λ s name. find_blob name s;
  put-contents = λ name body s t h. ap (λ r. find_blob name r.1) (sym h) ∙ find-own name body s;
  get-contents = λ name body s t h. answer_of-eq (find_blob name s) (ap (λ r. r.0) h);
  head-contents = λ name s t h. presence_of-eq (find_blob name s) (ap (λ r. r.0) h);
  delete-contents = λ name s t h. ap (λ r. find_blob name r.1) (sym h) ∙ find-removed name s;
}

put-get_bucket_example : (length (codes "new") ≡ 3) × (3 ≤ 8) × (codes "new" ≡ codes "new")
unfolding S3.object_key S3.put S3.get find_blob bytes_eq
put-get_bucket_example =
    put-get_bucket service service-IsLawful (codes "prod") 8 key (codes "prod/uploads/a.pdf")
      (codes "new") [] {n = 3} {b = codes "new"} refl refl refl
