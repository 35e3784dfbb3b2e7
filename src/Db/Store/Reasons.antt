-- ===== src/Db/Store/Reasons.antt =====
-- An upload has a failure reason exactly if it has failed: the statements of internal/db/*.sql.go and the
-- transactions of internal/db/store.go keep this.
use bankstmt_analyzer.Prelude.{
  ℕ, ◌≡◌, refl, Bool, true, false, not, Option, none, some, List, [], ◌∷◌, ◌++◌, map, arith, All,
  ◌==◌, All-append, All-map, All-mono, Bool-cases, inl, inr, length,
}
use bankstmt_analyzer.Text.{Bytes, codes, quote}
use bankstmt_analyzer.Go.{plain, Result, ok, err}
use bankstmt_analyzer.Go.Keeps.{
  Keeps, lift-Keeps, context-Keeps, >>=-Keeps, gets-Keeps, modify-Keeps, raise_if-Keeps,
}
use bankstmt_analyzer.Db.{
  Uuid, Status, pending, failed, Upload, UploadFile, CreateAnalysisParams, CreateTransactionsParams,
  Db,
}
use bankstmt_analyzer.Db.Queries.{
  Query, send, one, any_row, first_row, with_status, create_upload, set_upload_status,
  create_upload_file, list_upload_files, set_upload_file_ocr, create_analysis,
  delete_analysis_by_upload, create_transactions,
}
use bankstmt_analyzer.Db.Store.{
  NewUploadFile, NewAnalysis, in_tx, finish, commit, conclude, roll_back, record_upload,
  insert_files, create_upload_with_files, file_row, write_analysis, forget_analysis,
  insert_analysis, copy_rows, replace_analysis, to_int32, stamp,
}

abbrev pub is_failed : Status → Bool
is_failed s = elim s [ failed ↦ true | _ ↦ false ]

abbrev pub has_reason : Option Bytes → Bool
has_reason o = elim o [ none ↦ false | some reason ↦ true ]

abbrev pub Agrees : Upload → Type 0
Agrees u = is_failed u.status ≡ has_reason u.failure_reason

abbrev pub IsAgreed : Db → Type 0
IsAgreed db = All Agrees db.uploads

pub send-Keeps : Keeps IsAgreed send
unfolding send
send-Keeps = record { after = λ db h. ground arith }

one-Keeps : {A : Type 0} (o : Option A) → Keeps IsAgreed (one o)
one-Keeps none = record { after = λ s h. h }
one-Keeps (some a) = record { after = λ s h. h }

-- A statement on other tables.
other-Keeps :
    {A : Type 0} (q : Query A) → ((db : Db) → (q db).1.uploads ≡ db.uploads) → Keeps IsAgreed q
other-Keeps q same = record { after = λ db h. rw (same db) h }

with_status-Agrees :
    (st : Status) (reason : Option Bytes) (id : Uuid) (now : ℕ)
    → is_failed st ≡ has_reason reason
    → (u : Upload) → Agrees u
    → Agrees (with_status st reason id now u)
with_status-Agrees st reason id now fits u h = elim (Bool-cases (u.id == id)) [
  | inl own ↦ rw own fits
  | inr other ↦ rw other h
]

pub set_upload_status-Keeps :
    (st : Status) (reason : Option Bytes) (id : Uuid)
    → is_failed st ≡ has_reason reason
    → Keeps IsAgreed (set_upload_status st reason id)
unfolding set_upload_status
set_upload_status-Keeps st reason id fits = >>=-Keeps IsAgreed send-Keeps λ _.
    >>=-Keeps IsAgreed
      (modify-Keeps IsAgreed
        (λ db. record db { uploads = map (with_status st reason id db.now) db.uploads })
        λ db h. All-map Agrees (with_status st reason id db.now) db.uploads (
          All-mono Agrees (λ u. Agrees (with_status st reason id db.now u))
            (with_status-Agrees st reason id db.now fits) db.uploads h))
      λ _.
        >>=-Keeps IsAgreed (gets-Keeps IsAgreed (λ db. first_row (λ u. u.id == id) db.uploads))
          one-Keeps

abbrev new_row : Uuid → Status → ℕ → ℕ → Upload
new_row id status file_count now = record {
  id = id;
  status = status;
  failure_reason = none;
  file_count = file_count;
  created_at = now;
  updated_at = now;
}

create_upload-Keeps : (id : Uuid) (n : ℕ) → Keeps IsAgreed (create_upload id pending n)
unfolding create_upload
create_upload-Keeps id n = >>=-Keeps IsAgreed send-Keeps λ _.
    >>=-Keeps IsAgreed (gets-Keeps IsAgreed (λ db. any_row (λ u. u.id == id) db.uploads)) λ known.
      >>=-Keeps IsAgreed
        (raise_if-Keeps IsAgreed known (plain (codes "duplicate key: uploads_pkey")))
        λ _. >>=-Keeps IsAgreed (gets-Keeps IsAgreed (λ db. db.now)) λ now.
          >>=-Keeps IsAgreed
            (modify-Keeps IsAgreed
              (λ db. record db { uploads = db.uploads ++ new_row id pending n now ∷ [] })
              λ db h. All-append Agrees db.uploads (new_row id pending n now ∷ []) h (refl, tt))
            λ _. lift-Keeps IsAgreed (ok (new_row id pending n now))

create_upload_file-uploads :
    (f : UploadFile) (db : Db) → (create_upload_file f db).1.uploads ≡ db.uploads
unfolding create_upload_file send
create_upload_file-uploads f db = ground arith

list_upload_files-uploads : (id : Uuid) (db : Db) → (list_upload_files id db).1.uploads ≡ db.uploads
unfolding list_upload_files send
list_upload_files-uploads id db = ground arith

set_upload_file_ocr-uploads :
    (text : Bytes) (n : ℕ) (id : Uuid) (db : Db)
    → (set_upload_file_ocr text n id db).1.uploads ≡ db.uploads
unfolding set_upload_file_ocr send
set_upload_file_ocr-uploads text n id db = ground arith

create_analysis-uploads :
    (arg : CreateAnalysisParams) (db : Db) → (create_analysis arg db).1.uploads ≡ db.uploads
unfolding create_analysis send
create_analysis-uploads arg db = ground arith

delete_analysis_by_upload-uploads :
    (id : Uuid) (db : Db) → (delete_analysis_by_upload id db).1.uploads ≡ db.uploads
unfolding delete_analysis_by_upload send
delete_analysis_by_upload-uploads id db = ground arith

create_transactions-uploads :
    (rows : List CreateTransactionsParams) (db : Db)
    → (create_transactions rows db).1.uploads ≡ db.uploads
unfolding create_transactions send
create_transactions-uploads rows db = ground arith

pub list_upload_files-Keeps : (id : Uuid) → Keeps IsAgreed (list_upload_files id)
list_upload_files-Keeps id = other-Keeps (list_upload_files id) (list_upload_files-uploads id)

pub set_upload_file_ocr-Keeps :
    (text : Bytes) (n : ℕ) (id : Uuid) → Keeps IsAgreed (set_upload_file_ocr text n id)
set_upload_file_ocr-Keeps text n id =
    other-Keeps (set_upload_file_ocr text n id) (set_upload_file_ocr-uploads text n id)

pub delete_analysis_by_upload-Keeps : (id : Uuid) → Keeps IsAgreed (delete_analysis_by_upload id)
delete_analysis_by_upload-Keeps id =
    other-Keeps (delete_analysis_by_upload id) (delete_analysis_by_upload-uploads id)

module _ {A : Type 0} where
  conclude-after :
      (before db : Db) (a : A) (r : Result (Unit {0}))
      → IsAgreed before
      → IsAgreed db
      → IsAgreed (conclude before a r db).1
  unfolding conclude roll_back
  conclude-after before db a (ok _) b h = h
  conclude-after before db a (err e) b h = b

  finish-after :
      (before db : Db) (r : Result A)
      → IsAgreed before
      → IsAgreed db
      → IsAgreed (finish before r db).1
  unfolding finish commit roll_back
  finish-after before db (ok a) b h =
      conclude-after before (send db).1 a (send db).0 b (send-Keeps.after db h)
  finish-after before db (err e) b h = b

  in_tx-Keeps : (fn : Query A) → Keeps IsAgreed fn → Keeps IsAgreed (in_tx fn)
  unfolding in_tx
  in_tx-Keeps fn h =
      >>=-Keeps IsAgreed (context-Keeps IsAgreed (codes "db: begin transaction") send-Keeps)
        λ _. record { after = λ t i. finish-after t (fn t).1 (fn t).0 i (h.after t i) }

insert_files-Keeps :
    (upload : Uuid) (fs : List NewUploadFile) → Keeps IsAgreed (insert_files upload fs)
unfolding insert_files
insert_files-Keeps upload [] = lift-Keeps IsAgreed (ok tt)
insert_files-Keeps upload (f ∷ fs) =
    >>=-Keeps IsAgreed
      (context-Keeps IsAgreed (codes "db: insert upload file " ++ quote f.filename) (
        other-Keeps (create_upload_file (file_row upload f))
          (create_upload_file-uploads (file_row upload f))))
      λ _. insert_files-Keeps upload fs

record_upload-Keeps :
    (upload : Uuid) (files : List NewUploadFile) → Keeps IsAgreed (record_upload upload files)
unfolding record_upload
record_upload-Keeps upload files =
    >>=-Keeps IsAgreed
      (context-Keeps IsAgreed (codes "db: insert upload")
        (create_upload-Keeps upload (to_int32 (length files))))
      λ row. >>=-Keeps IsAgreed (insert_files-Keeps upload files) λ _. lift-Keeps IsAgreed (ok row)

pub create_upload_with_files-Keeps :
    (upload : Uuid) (files : List NewUploadFile)
    → Keeps IsAgreed (create_upload_with_files upload files)
unfolding create_upload_with_files
create_upload_with_files-Keeps upload [] = record { after = λ db h. h }
create_upload_with_files-Keeps upload (f ∷ fs) =
    in_tx-Keeps (record_upload upload (f ∷ fs)) (record_upload-Keeps upload (f ∷ fs))

copy_rows-Keeps : (ts : List CreateTransactionsParams) → Keeps IsAgreed (copy_rows ts)
unfolding copy_rows
copy_rows-Keeps [] = lift-Keeps IsAgreed (ok tt)
copy_rows-Keeps (t ∷ ts) =
    >>=-Keeps IsAgreed
      (context-Keeps IsAgreed (codes "db: copy transactions")
        (other-Keeps (create_transactions (t ∷ ts)) (create_transactions-uploads (t ∷ ts))))
      λ copied. raise_if-Keeps IsAgreed (not (copied == length (t ∷ ts))) _

write_analysis-Keeps : (new : NewAnalysis) → Keeps IsAgreed (write_analysis new)
unfolding write_analysis forget_analysis insert_analysis
write_analysis-Keeps new =
    >>=-Keeps IsAgreed
      (context-Keeps IsAgreed (codes "db: delete previous analysis")
        (delete_analysis_by_upload-Keeps new.analysis.upload_id))
      λ _.
        >>=-Keeps IsAgreed
          (context-Keeps IsAgreed (codes "db: insert analysis")
            (other-Keeps (create_analysis new.analysis) (create_analysis-uploads new.analysis)))
          λ row.
            >>=-Keeps IsAgreed (copy_rows-Keeps (map (stamp row.id) new.transactions))
              λ _. lift-Keeps IsAgreed (ok row)

pub replace_analysis-Keeps : (new : NewAnalysis) → Keeps IsAgreed (replace_analysis new)
unfolding replace_analysis
replace_analysis-Keeps new = in_tx-Keeps (write_analysis new) (write_analysis-Keeps new)
