-- ===== src/Db/Store/Recorded.antt =====
-- `CreateUploadWithFiles` (internal/db/store.go): what is recorded when it returns no error.
use bankstmt_analyzer.Prelude.{
  ℕ, ◌≡◌, refl, sym, ap, ◌∙◌, false, List, [], ◌∷◌, ◌++◌, append-nil, append_assoc, map, arith,
  length, ◌==◌,
}
use bankstmt_analyzer.Text.{codes, quote}
use bankstmt_analyzer.Go.Monad.{pure, context, ◌>>◌}
use bankstmt_analyzer.Go.Hoare.{OnOk, OnOk-mono, OnOk-bind, OnOk-context}
use bankstmt_analyzer.Db.{Uuid, pending, Upload, UploadFile, Db}
use bankstmt_analyzer.Db.Queries.{any_row, create_upload, create_upload_file}
use bankstmt_analyzer.Db.Store.{
  NewUploadFile, file_row, create_upload_with_files, record_upload, insert_files, to_int32,
}
use bankstmt_analyzer.Db.Store.Atomic.{SameTables}
use bankstmt_analyzer.Db.Store.Transactions.{in_tx-OnOk}

-- The upload's row and the rows of its files are new, and stand behind the others.
pub record Recorded (id : Uuid) (files : List NewUploadFile) (db : Db) (row : Upload) (db' : Db)
    : Type 0 where
  pub named : row.id ≡ id
  pub waiting : row.status ≡ pending
  pub counted : row.file_count ≡ to_int32 (length files)
  pub fresh : any_row (λ u. u.id == id) db.uploads ≡ false
  pub uploads : db'.uploads ≡ db.uploads ++ row ∷ []
  pub upload_files : db'.upload_files ≡ db.upload_files ++ map (file_row id) files

-- The upload's row alone.
record Inserted (id : Uuid) (count : ℕ) (db : Db) (row : Upload) (db' : Db) : Type 0 where
  named : row.id ≡ id
  waiting : row.status ≡ pending
  counted : row.file_count ≡ count
  fresh : any_row (λ u. u.id == id) db.uploads ≡ false
  uploads : db'.uploads ≡ db.uploads ++ row ∷ []
  upload_files : db'.upload_files ≡ db.upload_files

create_upload-OnOk :
    (id : Uuid) (count : ℕ) (db : Db)
    → OnOk (Inserted id count db) (create_upload id pending count db)
unfolding create_upload
create_upload-OnOk id count db = ground arith

-- The rows of files are added, in order.
record Added (rows : List UploadFile) (db db' : Db) : Type 0 where
  uploads : db'.uploads ≡ db.uploads
  upload_files : db'.upload_files ≡ db.upload_files ++ rows

create_upload_file-OnOk :
    (f : UploadFile) (db : Db) → OnOk (λ _. Added (f ∷ []) db) (create_upload_file f db)
unfolding create_upload_file
create_upload_file-OnOk f db = ground arith

insert_files-OnOk :
    (id : Uuid) (fs : List NewUploadFile) (db : Db)
    → OnOk (λ _. Added (map (file_row id) fs) db) (insert_files id fs db)
unfolding insert_files
insert_files-OnOk id [] db = record {
  uploads = refl;
  upload_files = sym (append-nil db.upload_files);
}
insert_files-OnOk id (f ∷ fs) db =
    OnOk-bind (λ _. Added (file_row id f ∷ []) db) (λ _. Added (map (file_row id) (f ∷ fs)) db)
      (context (codes "db: insert upload file " ++ quote f.filename)
        (create_upload_file (file_row id f)))
      (λ _. insert_files id fs) db
      (OnOk-context _ (λ _. Added (file_row id f ∷ []) db) (create_upload_file (file_row id f)) db
        (create_upload_file-OnOk (file_row id f) db))
      λ _ s added.
        OnOk-mono (λ _. Added (map (file_row id) fs) s) (λ _. Added (map (file_row id) (f ∷ fs)) db)
          (insert_files id fs s)
          (λ _ t more. record {
            uploads = more.uploads ∙ added.uploads;
            upload_files =
                more.upload_files
                ∙ ap (λ gs. gs ++ map (file_row id) fs) added.upload_files
                ∙ append_assoc db.upload_files (file_row id f ∷ []) (map (file_row id) fs);
          })
          (insert_files-OnOk id fs s)

record_upload-OnOk :
    (id : Uuid) (fs : List NewUploadFile) (db s : Db)
    → SameTables db s
    → OnOk (Recorded id fs db) (record_upload id fs s)
unfolding record_upload
record_upload-OnOk id fs db s same =
    OnOk-bind (Inserted id (to_int32 (length fs)) s) (Recorded id fs db)
      (context (codes "db: insert upload") (create_upload id pending (to_int32 (length fs))))
      (λ row. insert_files id fs >> pure row) s
      (OnOk-context _ (Inserted id (to_int32 (length fs)) s)
        (create_upload id pending (to_int32 (length fs))) s
        (create_upload-OnOk id (to_int32 (length fs)) s))
      λ row t inserted.
        OnOk-bind (λ _. Added (map (file_row id) fs) t) (Recorded id fs db) (insert_files id fs)
          (λ _. pure row) t (insert_files-OnOk id fs t)
          (λ _ v added. record {
            named = inserted.named;
            waiting = inserted.waiting;
            counted = inserted.counted;
            fresh = rw same.uploads at inserted.fresh;
            uploads = added.uploads ∙ inserted.uploads ∙ ap (λ us. us ++ row ∷ []) same.uploads;
            upload_files =
                added.upload_files
                ∙ ap (λ gs. gs ++ map (file_row id) fs) (inserted.upload_files ∙ same.upload_files);
          })

pub create_upload_with_files-Recorded :
    (id : Uuid) (fs : List NewUploadFile) (db : Db)
    → OnOk (Recorded id fs db) (create_upload_with_files id fs db)
unfolding create_upload_with_files
create_upload_with_files-Recorded id [] db = tt
create_upload_with_files-Recorded id (f ∷ fs) db =
    in_tx-OnOk (Recorded id (f ∷ fs) db)
      (λ row s t same h. record {
        named = h.named;
        waiting = h.waiting;
        counted = h.counted;
        fresh = h.fresh;
        uploads = same.uploads ∙ h.uploads;
        upload_files = same.upload_files ∙ h.upload_files;
      })
      (record_upload id (f ∷ fs)) db (λ s same _. record_upload-OnOk id (f ∷ fs) db s same)
