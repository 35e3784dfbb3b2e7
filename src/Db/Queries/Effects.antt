-- ===== src/Db/Queries/Effects.antt =====
-- What the statements of internal/db/*.sql.go have done when they return no error.
use bankstmt_analyzer.Prelude.{◌≡◌, ◌||◌, false, List, [], ◌∷◌, ◌++◌, arith, not, ◌==◌, length}
use bankstmt_analyzer.Go.Hoare.{OnOk}
use bankstmt_analyzer.Db.{Uuid, CreateAnalysisParams, Analysis, CreateTransactionsParams, Db}
use bankstmt_analyzer.Db.Queries.{
  where_rows, any_row, belongs_to, number_rows, delete_analysis_by_upload, create_analysis,
  create_transactions,
}

pub record Deleted (u : Uuid) (db db' : Db) : Type 0 where
  pub analyses : db'.analyses ≡ where_rows (λ a. not (a.upload_id == u)) db.analyses
  pub transactions :
      db'.transactions ≡ where_rows (λ t. not (belongs_to db.analyses u t)) db.transactions
  pub next_serial : db'.next_serial ≡ db.next_serial

pub delete_analysis_by_upload-OnOk :
    (u : Uuid) (db : Db) → OnOk (λ _. Deleted u db) (delete_analysis_by_upload u db)
unfolding delete_analysis_by_upload
delete_analysis_by_upload-OnOk u db = ground arith

pub record Created (arg : CreateAnalysisParams) (db : Db) (row : Analysis) (db' : Db) : Type 0 where
  pub columns : row.columns ≡ arg
  pub fresh : any_row (λ a. a.id == arg.id || a.upload_id == arg.upload_id) db.analyses ≡ false
  pub analyses : db'.analyses ≡ db.analyses ++ row ∷ []
  pub transactions : db'.transactions ≡ db.transactions
  pub next_serial : db'.next_serial ≡ db.next_serial

pub create_analysis-OnOk :
    (arg : CreateAnalysisParams) (db : Db) → OnOk (Created arg db) (create_analysis arg db)
unfolding create_analysis
create_analysis-OnOk arg db = ground arith

pub record Copied (rows : List CreateTransactionsParams) (db db' : Db) : Type 0 where
  pub analyses : db'.analyses ≡ db.analyses
  pub transactions : db'.transactions ≡ db.transactions ++ number_rows db.next_serial rows

pub create_transactions-OnOk :
    (rows : List CreateTransactionsParams) (db : Db)
    → OnOk (λ n db'. (n ≡ length rows) × Copied rows db db') (create_transactions rows db)
unfolding create_transactions
create_transactions-OnOk rows db = ground arith
