-- ===== src/Db/Queries.antt =====
-- The statements of internal/db/*.sql.go on the tables: constraints of db/migrations included.
pub mod Effects
use Prim.Native.String.{String}
use bankstmt_analyzer.Prelude.{
  ℕ, ◌+◌, Bool, true, false, not, ◌&&◌, ◌||◌, Option, none, some, List, [], ◌∷◌, ◌++◌, map, ◌==◌,
  leb, length, if◌then◌else◌,
}
use bankstmt_analyzer.Text.{Bytes, codes}
use bankstmt_analyzer.Go.{Error, plain, no_rows, Result, ok, err}
use bankstmt_analyzer.Go.Monad.{Exec, pure, raise, gets, modify, raise_if, ◌>>=◌, ◌>>◌}
use bankstmt_analyzer.Db.{
  Uuid, Status, Upload, UploadFile, CreateAnalysisParams, Analysis, CreateTransactionsParams,
  Transaction, Db,
}

abbrev pub Query : Type 0 → Type 0
Query A = Exec Db A

-- The rows that a `WHERE` clause keeps.
abbrev pub where_rows : {A : Type 0} → (A → Bool) → List A → List A
where_rows p [] = []
where_rows p (a ∷ rest) = if p a then a ∷ where_rows p rest else where_rows p rest

abbrev pub any_row : {A : Type 0} → (A → Bool) → List A → Bool
any_row p [] = false
any_row p (a ∷ rest) = p a || any_row p rest

abbrev pub first_row : {A : Type 0} → (A → Bool) → List A → Option A
first_row p [] = none
first_row p (a ∷ rest) = if p a then some a else first_row p rest

-- A `:one` query without a row is `pgx.ErrNoRows`.
abbrev pub one : {A : Type 0} → Option A → Query A
one none = raise no_rows
one (some a) = pure a

-- A statement is sent: it fails if the server cannot be reached or is otherwise in trouble.
unfoldable pub send : Query (Unit {0})
send db = elim db.outages [
  | [] ↦ (ok tt, db)
  | none ∷ rest ↦ (ok tt, record db { outages = rest })
  | some text ∷ rest ↦ (err (plain text), record db { outages = rest })
]

abbrev violation : String → Error
violation text = plain (codes text)

-- `INSERT INTO uploads`
unfoldable pub create_upload : Uuid → Status → ℕ → Query Upload
unfolding send
create_upload id status file_count = do
  send
  raise_if (← gets (λ db. any_row (λ u. u.id == id) db.uploads))
      (violation "duplicate key: uploads_pkey")
  now ← gets (λ db. db.now)
  let row : Upload = record {
    id = id;
    status = status;
    failure_reason = none;
    file_count = file_count;
    created_at = now;
    updated_at = now;
  }
  modify (λ db. record db { uploads = db.uploads ++ row ∷ [] })
  pure row

-- `SELECT … FROM uploads WHERE id = $1`
unfoldable pub get_upload : Uuid → Query Upload
unfolding send
get_upload id = do send; one (← gets (λ db. first_row (λ u. u.id == id) db.uploads))

abbrev pub with_status : Status → Option Bytes → Uuid → ℕ → Upload → Upload
with_status status reason id now u =
    if u.id == id
    then record u { status = status; failure_reason = reason; updated_at = now }
    else u

-- `UPDATE uploads SET status, failure_reason, updated_at WHERE id = $3 RETURNING …`
unfoldable pub set_upload_status : Status → Option Bytes → Uuid → Query Upload
unfolding send
set_upload_status status reason id = do
  send
  modify (λ db. record db { uploads = map (with_status status reason id db.now) db.uploads })
  one (← gets (λ db. first_row (λ u. u.id == id) db.uploads))

-- `INSERT INTO upload_files`, with its primary key, its UNIQUE constraint and its foreign key.
unfoldable pub create_upload_file : UploadFile → Query (Unit {0})
unfolding send
create_upload_file f = do
  send
  raise_if
      (← gets (λ db.
        any_row (λ g. g.id == f.id || g.upload_id == f.upload_id && g.position == f.position)
          db.upload_files))
      (violation "duplicate key: upload_files")
  known ← gets (λ db. any_row (λ u. u.id == f.upload_id) db.uploads)
  raise_if (not known) (violation "foreign key: upload_files_upload_id_fkey")
  modify (λ db. record db { upload_files = db.upload_files ++ f ∷ [] })

-- `ORDER BY position`
unfoldable pub insert_position : UploadFile → List UploadFile → List UploadFile
insert_position f [] = f ∷ []
insert_position f (g ∷ gs) =
    if leb f.position g.position then f ∷ g ∷ gs else g ∷ insert_position f gs

unfoldable pub order_by_position : List UploadFile → List UploadFile
unfolding insert_position
order_by_position [] = []
order_by_position (f ∷ fs) = insert_position f (order_by_position fs)

-- `SELECT … FROM upload_files WHERE upload_id = $1 ORDER BY position`
unfoldable pub list_upload_files : Uuid → Query (List UploadFile)
unfolding send order_by_position
list_upload_files id = do
  send
  gets (λ db. order_by_position (where_rows (λ f. f.upload_id == id) db.upload_files))

abbrev pub with_ocr : Bytes → ℕ → Uuid → UploadFile → UploadFile
with_ocr markdown pages id f =
    if f.id == id then record f { ocr_markdown = some markdown; page_count = some pages } else f

-- `UPDATE upload_files SET ocr_markdown, page_count WHERE id = $3`
unfoldable pub set_upload_file_ocr : Bytes → ℕ → Uuid → Query (Unit {0})
unfolding send
set_upload_file_ocr markdown pages id = do
  send
  modify (λ db. record db { upload_files = map (with_ocr markdown pages id) db.upload_files })

-- `INSERT INTO analyses`, with its primary key, the UNIQUE upload and the foreign key.
unfoldable pub create_analysis : CreateAnalysisParams → Query Analysis
unfolding send
create_analysis arg = do
  send
  raise_if
      (← gets (λ db. any_row (λ a. a.id == arg.id || a.upload_id == arg.upload_id) db.analyses))
      (violation "duplicate key: analyses")
  known ← gets (λ db. any_row (λ u. u.id == arg.upload_id) db.uploads)
  raise_if (not known) (violation "foreign key: analyses_upload_id_fkey")
  now ← gets (λ db. db.now)
  let row : Analysis = record { columns = arg; created_at = now }
  modify (λ db. record db { analyses = db.analyses ++ row ∷ [] })
  pure row

-- The rows of `transactions` that go with the analyses of an upload: `ON DELETE CASCADE`.
abbrev pub belongs_to : List Analysis → Uuid → Transaction → Bool
belongs_to analyses upload t =
    any_row (λ (a : Analysis). a.id == t.analysis_id && a.upload_id == upload) analyses

-- `DELETE FROM analyses WHERE upload_id = $1`, with the number of rows that it removed.
unfoldable pub delete_analysis_by_upload : Uuid → Query ℕ
unfolding send
delete_analysis_by_upload upload = do
  send
  gone ← gets (λ db. length (where_rows (λ a. a.upload_id == upload) db.analyses))
  modify (λ db. record db {
    analyses = where_rows (λ a. not (a.upload_id == upload)) db.analyses;
    transactions = where_rows (λ t. not (belongs_to db.analyses upload t)) db.transactions;
  })
  pure gone

-- `SELECT … FROM analyses WHERE upload_id = $1`
unfoldable pub get_analysis_by_upload : Uuid → Query Analysis
unfolding send
get_analysis_by_upload upload = do
  send
  one (← gets (λ db. first_row (λ a. a.upload_id == upload) db.analyses))

-- `SELECT id FROM analyses WHERE upload_id = $1`
unfoldable pub get_analysis_id_by_upload : Uuid → Query Uuid
unfolding send
get_analysis_id_by_upload upload = do
  send
  a ← one (← gets (λ db. first_row (λ a. a.upload_id == upload) db.analyses))
  pure a.id

-- Rows numbered by `bigserial`.
abbrev pub number_rows : ℕ → List CreateTransactionsParams → List Transaction
number_rows n [] = []
number_rows n (t ∷ ts) = record { serial = n; columns = t } ∷ number_rows (n + 1) ts

-- Every copied row names an analysis that is there.
abbrev pub known_analyses : List Analysis → List CreateTransactionsParams → Bool
known_analyses analyses [] = true
known_analyses analyses (t ∷ ts) =
    any_row (λ a. a.id == t.analysis_id) analyses && known_analyses analyses ts

-- `COPY transactions`, with the number of rows that it wrote; it is all or nothing.
unfoldable pub create_transactions : List CreateTransactionsParams → Query ℕ
unfolding send
create_transactions rows = do
  send
  known ← gets (λ db. known_analyses db.analyses rows)
  raise_if (not known) (violation "foreign key: transactions_analysis_id_fkey")
  modify (λ db. record db {
    transactions = db.transactions ++ number_rows db.next_serial rows;
    next_serial = db.next_serial + length rows;
  })
  pure (length rows)
