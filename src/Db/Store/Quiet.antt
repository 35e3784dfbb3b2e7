-- ===== src/Db/Store/Quiet.antt =====
-- The transactions of internal/db/store.go with a server that answers: it answers afterwards too.
use bankstmt_analyzer.Prelude.{ℕ, ◌≡◌, List, [], ◌∷◌, arith, length, ◌++◌}
use bankstmt_analyzer.Text.{codes, quote}
use bankstmt_analyzer.Go.{Result, ok, err}
use bankstmt_analyzer.Go.Monad.{pure, context, ◌>>◌}
use bankstmt_analyzer.Go.Hoare.{OnOk, OnOk-bind, OnOk-context}
use bankstmt_analyzer.Db.{Uuid, Status, pending, UploadFile, Db}
use bankstmt_analyzer.Db.Queries.{Query, create_upload, create_upload_file, send}
use bankstmt_analyzer.Db.Store.{
  NewUploadFile, file_row, create_upload_with_files, in_tx, record_upload, insert_files, finish,
  commit, conclude, to_int32,
}

-- No statement to come fails.
abbrev pub IsQuiet : Db → Type 0
IsQuiet db = db.outages ≡ []

pub send-eq : (db : Db) → IsQuiet db → send db ≡ (ok tt, db)
unfolding send
send-eq db quiet = ground arith

finish-IsQuiet :
    {A : Type 0} (before : Db) (r : Result A) (s : Db)
    → OnOk (λ _. IsQuiet) (r, s)
    → OnOk (λ _. IsQuiet) (finish before r s)
unfolding finish commit conclude
finish-IsQuiet before (ok a) s quiet = rw (send-eq s quiet) quiet
finish-IsQuiet before (err e) s h = tt

in_tx-IsQuiet :
    {A : Type 0} (fn : Query A) (db : Db)
    → IsQuiet db
    → OnOk (λ _. IsQuiet) (fn db)
    → OnOk (λ _. IsQuiet) (in_tx fn db)
unfolding in_tx
in_tx-IsQuiet {A} fn db quiet h =
    rw (in_tx, send-eq db quiet) (finish-IsQuiet db (fn db).0 (fn db).1 h)

create_upload-IsQuiet :
    (id : Uuid) (st : Status) (n : ℕ) (db : Db)
    → IsQuiet db
    → OnOk (λ _. IsQuiet) (create_upload id st n db)
unfolding create_upload send
create_upload-IsQuiet id st n db quiet = ground arith

create_upload_file-IsQuiet :
    (f : UploadFile) (db : Db) → IsQuiet db → OnOk (λ _. IsQuiet) (create_upload_file f db)
unfolding create_upload_file send
create_upload_file-IsQuiet f db quiet = ground arith

insert_files-IsQuiet :
    (id : Uuid) (fs : List NewUploadFile) (db : Db)
    → IsQuiet db
    → OnOk (λ _. IsQuiet) (insert_files id fs db)
unfolding insert_files
insert_files-IsQuiet id [] db quiet = quiet
insert_files-IsQuiet id (f ∷ fs) db quiet =
    OnOk-bind (λ _. IsQuiet) (λ _. IsQuiet)
      (context (codes "db: insert upload file " ++ quote f.filename)
        (create_upload_file (file_row id f)))
      (λ _. insert_files id fs) db
      (OnOk-context _ (λ _. IsQuiet) (create_upload_file (file_row id f)) db
        (create_upload_file-IsQuiet (file_row id f) db quiet))
      λ _ s. insert_files-IsQuiet id fs s

record_upload-IsQuiet :
    (id : Uuid) (fs : List NewUploadFile) (db : Db)
    → IsQuiet db
    → OnOk (λ _. IsQuiet) (record_upload id fs db)
unfolding record_upload
record_upload-IsQuiet id fs db quiet =
    OnOk-bind (λ _. IsQuiet) (λ _. IsQuiet)
      (context (codes "db: insert upload") (create_upload id pending (to_int32 (length fs))))
      (λ row. insert_files id fs >> pure row) db
      (OnOk-context _ (λ _. IsQuiet) (create_upload id pending (to_int32 (length fs))) db
        (create_upload-IsQuiet id pending (to_int32 (length fs)) db quiet))
      λ row s quiet'.
        OnOk-bind (λ _. IsQuiet) (λ _. IsQuiet) (insert_files id fs) (λ _. pure row) s
          (insert_files-IsQuiet id fs s quiet') (λ _ t q. q)

pub create_upload_with_files-IsQuiet :
    (id : Uuid) (fs : List NewUploadFile) (db : Db)
    → IsQuiet db
    → OnOk (λ _. IsQuiet) (create_upload_with_files id fs db)
unfolding create_upload_with_files
create_upload_with_files-IsQuiet id [] db quiet = tt
create_upload_with_files-IsQuiet id (f ∷ fs) db quiet =
    in_tx-IsQuiet (record_upload id (f ∷ fs)) db quiet (record_upload-IsQuiet id (f ∷ fs) db quiet)
