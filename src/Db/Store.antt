-- ===== src/Db/Store.antt =====
-- internal/db/store.go: the operations that take several statements in one transaction.
pub mod Atomic
pub mod Transactions
pub mod Replace
pub mod Recorded
pub mod Live
pub mod Quiet
pub mod Reasons
use bankstmt_analyzer.Prelude.{
  ℕ, ◌+◌, ◌%◌, ◌^◌, Bool, true, false, not, Option, none, some, List, [], ◌∷◌, ◌++◌, map, ◌==◌,
  length, if◌then◌else◌,
}
use bankstmt_analyzer.Text.{Bytes, codes, quote}
use bankstmt_analyzer.Text.Decimal.{print_decimal}
use bankstmt_analyzer.Go.{Error, plain, no_rows, wrap, Result, ok, err}
use bankstmt_analyzer.Go.Monad.{Exec, pure, raise, gets, modify, raise_if, context, ◌>>=◌, ◌>>◌}
use bankstmt_analyzer.Db.{
  Uuid, Status, pending, Upload, UploadFile, CreateAnalysisParams, Analysis,
  CreateTransactionsParams, Db,
}
use bankstmt_analyzer.Db.Queries.{
  Query, send, create_upload, create_upload_file, delete_analysis_by_upload, create_analysis,
  create_transactions,
}

-- `errors.Is(err, pgx.ErrNoRows)`
unfoldable pub is_not_found : Error → Bool
is_not_found no_rows = true
is_not_found (wrap text cause) = is_not_found cause
is_not_found _ = false

-- `int32(n)` as a bit pattern
abbrev pub to_int32 : ℕ → ℕ
to_int32 n = n % 2 ^ 32

-- A rollback restores the tables; serial numbers stay used and statements stay sent.
unfoldable pub roll_back : Db → Db → Db
roll_back before db = record db {
  uploads = before.uploads;
  upload_files = before.upload_files;
  analyses = before.analyses;
  transactions = before.transactions;
}

module _ {A : Type 0} where
  -- A commit that returns an error counts as rolled back.
  conclude : Db → A → Result (Unit {0}) → Query A
  unfolding roll_back
  conclude before a (ok _) db = (ok a, db)
  conclude before a (err e) db =
      (err (wrap (codes "db: commit transaction") e), roll_back before db)

  -- `tx.Commit`, after which the deferred rollback does nothing.
  commit : Db → A → Query A
  unfolding conclude send
  commit before a db = let (r, db') = send db in conclude before a r db'

  -- The end of `InTx`: the function's error rolls back, and its value is committed.
  finish : Db → Result A → Query A
  unfolding commit
  finish before (ok a) db = commit before a db
  finish before (err e) db = (err e, roll_back before db)

  -- `InTx`
  unfoldable pub in_tx : Query A → Query A
  unfolding finish
  in_tx fn = do
    context (codes "db: begin transaction") send
    before ← gets (λ db. db)
    λ db. let (r, db') = fn db in finish before r db'

pub record NewUploadFile : Type 0 where
  pub id : Uuid
  pub position : ℕ
  pub filename : Bytes
  pub content_type : Bytes
  pub size_bytes : ℕ
  pub storage_key : Bytes

abbrev pub file_row : Uuid → NewUploadFile → UploadFile
file_row upload f = record {
  id = f.id;
  upload_id = upload;
  position = f.position;
  filename = f.filename;
  content_type = f.content_type;
  size_bytes = f.size_bytes;
  storage_key = f.storage_key;
  page_count = none;
  ocr_markdown = none;
}

-- The loop of `CreateUploadWithFiles`.
insert_files : Uuid → List NewUploadFile → Query (Unit {0})
unfolding create_upload_file
insert_files upload [] = pure tt
insert_files upload (f ∷ fs) = do
  context (codes "db: insert upload file " ++ quote f.filename)
      (create_upload_file (file_row upload f))
  insert_files upload fs

-- The function that `CreateUploadWithFiles` runs in a transaction.
record_upload : Uuid → List NewUploadFile → Query Upload
unfolding insert_files create_upload
record_upload upload files = do
  row ← context (codes "db: insert upload") (create_upload upload pending (to_int32 (length files)))
  insert_files upload files
  pure row

unfoldable pub create_upload_with_files : Uuid → List NewUploadFile → Query Upload
unfolding in_tx record_upload
create_upload_with_files upload [] = raise (plain (codes "db: an upload needs at least one file"))
create_upload_with_files upload (f ∷ fs) = in_tx (record_upload upload (f ∷ fs))

pub record NewAnalysis : Type 0 where
  pub analysis : CreateAnalysisParams
  pub transactions : List CreateTransactionsParams

-- The analysis id is stamped onto the rows.
abbrev pub stamp : Uuid → CreateTransactionsParams → CreateTransactionsParams
stamp id t = record t { analysis_id = id }

-- The copying in `ReplaceAnalysis`, which is left out if there is nothing to copy.
copy_rows : List CreateTransactionsParams → Query (Unit {0})
unfolding create_transactions print_decimal
copy_rows [] = pure tt
copy_rows (t ∷ ts) = do
  copied ← context (codes "db: copy transactions") (create_transactions (t ∷ ts))
  raise_if (not (copied == length (t ∷ ts))) (
      plain (
        codes "db: copied "
        ++ (print_decimal copied
            ++ (codes " of " ++ (print_decimal (length (t ∷ ts)) ++ codes " transactions")))))

forget_analysis : NewAnalysis → Query ℕ
forget_analysis new =
    context (codes "db: delete previous analysis")
      (delete_analysis_by_upload new.analysis.upload_id)

insert_analysis : NewAnalysis → Query Analysis
insert_analysis new = context (codes "db: insert analysis") (create_analysis new.analysis)

-- The function that `ReplaceAnalysis` runs in a transaction.
write_analysis : NewAnalysis → Query Analysis
write_analysis new = do
  forget_analysis new
  row ← insert_analysis new
  copy_rows (map (stamp row.id) new.transactions)
  pure row

unfoldable pub replace_analysis : NewAnalysis → Query Analysis
unfolding in_tx write_analysis forget_analysis insert_analysis copy_rows delete_analysis_by_upload
    create_analysis
replace_analysis new = in_tx (write_analysis new)
