-- ===== src/Db/Store/Replace.antt =====
-- `ReplaceAnalysis` (internal/db/store.go): what is recorded for the upload afterwards.
use bankstmt_analyzer.Prelude.{
  ℕ, ◌≡◌, refl, sym, subst, ap, ap₂, ◌∙◌, ◌||◌, false, not, List, [], ◌∷◌, ◌++◌, append-nil, map,
  arith, ◌==◌, All,
}
use bankstmt_analyzer.Go.Monad.{pure, ◌>>=◌, ◌>>◌}
use bankstmt_analyzer.Go.{ok}
use bankstmt_analyzer.Go.Hoare.{OnOk, OnOk-bind, OnOk-context}
use bankstmt_analyzer.Db.{Uuid, Analysis, CreateTransactionsParams, Db}
use bankstmt_analyzer.Db.Queries.{
  Query, where_rows, any_row, belongs_to, number_rows, delete_analysis_by_upload, create_analysis,
}
use bankstmt_analyzer.Db.Queries.Effects.{
  delete_analysis_by_upload-OnOk, create_analysis-OnOk, create_transactions-OnOk, Deleted, Created,
  Copied,
}
use bankstmt_analyzer.Db.Rows.{
  where_rows-append, where_rows-not, where_rows_idem, Refers, where_rows-left_over,
  where_rows-number_rows,
}
use bankstmt_analyzer.Db.Store.{
  NewAnalysis, stamp, copy_rows, forget_analysis, insert_analysis, write_analysis, replace_analysis,
}
use bankstmt_analyzer.Db.Store.Atomic.{SameTables}
use bankstmt_analyzer.Db.Store.Transactions.{in_tx-OnOk}

copy_rows-OnOk :
    (rows : List CreateTransactionsParams) (db : Db)
    → OnOk (λ _. Copied rows db) (copy_rows rows db)
unfolding copy_rows
copy_rows-OnOk [] db = record { analyses = refl; transactions = sym (append-nil db.transactions) }
copy_rows-OnOk (t ∷ ts) db = ground (arith, create_transactions-OnOk (t ∷ ts) db)

-- After the call the upload has one analysis, the new one; the analyses of other uploads are as they
-- were; and the transactions of the new analysis are the new ones, in order.
pub record Replaced (new : NewAnalysis) (db : Db) (row : Analysis) (db' : Db) : Type 0 where
  pub columns : row.columns ≡ new.analysis
  pub only : where_rows (λ a. a.upload_id == new.analysis.upload_id) db'.analyses ≡ row ∷ []
  pub others :
      where_rows (λ a. not (a.upload_id == new.analysis.upload_id)) db'.analyses
      ≡ where_rows (λ a. not (a.upload_id == new.analysis.upload_id)) db.analyses
  pub rows :
      where_rows (λ t. t.analysis_id == row.id) db'.transactions
      ≡ number_rows db.next_serial (map (stamp row.id) new.transactions)

only_row :
    (u : Uuid) (row : Analysis)
    → row.upload_id ≡ u
    → where_rows (λ a. a.upload_id == u) (row ∷ []) ≡ row ∷ []
only_row u row e = ground arith

no_row :
    (u : Uuid) (row : Analysis)
    → row.upload_id ≡ u
    → where_rows (λ a. not (a.upload_id == u)) (row ∷ []) ≡ []
no_row u row e = ground arith

module _ (new : NewAnalysis) (db : Db) (refers : All (Refers db.analyses) db.transactions) where
  abbrev u : Uuid
  u = new.analysis.upload_id

  -- The three statements of the transaction, one after the other.
  module _ (s₀ s₁ s₂ s₃ : Db) (row : Analysis) (same : SameTables db s₀)
      (serial : s₀.next_serial ≡ db.next_serial) (deleted : Deleted u s₀ s₁)
      (created : Created new.analysis s₁ row s₂)
      (copied : Copied (map (stamp row.id) new.transactions) s₂ s₃) where
    analyses_left : s₁.analyses ≡ where_rows (λ a. not (a.upload_id == u)) db.analyses
    analyses_left = deleted.analyses ∙ ap (where_rows (λ a. not (a.upload_id == u))) same.analyses

    analyses_after : s₃.analyses ≡ where_rows (λ a. not (a.upload_id == u)) db.analyses ++ row ∷ []
    analyses_after = copied.analyses ∙ created.analyses ∙ ap (λ as'. as' ++ row ∷ []) analyses_left

    transactions_after :
        s₃.transactions
        ≡ where_rows (λ t. not (belongs_to db.analyses u t)) db.transactions
          ++ number_rows db.next_serial (map (stamp row.id) new.transactions)
    transactions_after =
        copied.transactions
        ∙ ap₂ (λ ts n. ts ++ number_rows n (map (stamp row.id) new.transactions))
            (created.transactions
              ∙ deleted.transactions
              ∙ ap₂ (λ as' ts. where_rows (λ t. not (belongs_to as' u t)) ts) same.analyses
                  same.transactions)
            (created.next_serial ∙ deleted.next_serial ∙ serial)

    fresh :
        any_row
          (λ a. a.id == row.id || a.upload_id == u)
          (where_rows (λ a. not (a.upload_id == u)) db.analyses)
        ≡ false
    fresh = rw (created.columns, ← analyses_left) created.fresh

    Replaced-of_effects : Replaced new db row s₃
    Replaced-of_effects = record {
      columns = created.columns;
      only =
          rw (analyses_after, where_rows-append, where_rows-not)
            (only_row u row (ap (λ c. c.upload_id) created.columns));
      others =
          rw
            (
              analyses_after,
              where_rows-append,
              no_row u row (ap (λ c. c.upload_id) created.columns),
              append-nil,
            )
            (where_rows_idem (λ a. not (a.upload_id == u)) db.analyses);
      rows =
          rw
            (
              transactions_after,
              where_rows-append,
              where_rows-left_over db.analyses u row.id db.transactions refers fresh,
            )
            (where_rows-number_rows row.id db.next_serial new.transactions);
    }

  abbrev copy_rest : Analysis → Query Analysis
  copy_rest row = copy_rows (map (stamp row.id) new.transactions) >> pure row

  abbrev insert_rest : ℕ → Query Analysis
  insert_rest _ = insert_analysis new >>= copy_rest

  write_analysis-OnOk :
      (s₀ : Db)
      → SameTables db s₀
      → s₀.next_serial ≡ db.next_serial
      → OnOk (Replaced new db) (write_analysis new s₀)
  unfolding write_analysis forget_analysis insert_analysis
  write_analysis-OnOk s₀ same serial =
      OnOk-bind (λ _. Deleted u s₀) (Replaced new db) (forget_analysis new) insert_rest s₀
        (OnOk-context _ (λ _. Deleted u s₀) (delete_analysis_by_upload u) s₀
          (delete_analysis_by_upload-OnOk u s₀))
        λ _ s₁ deleted.
          OnOk-bind (Created new.analysis s₁) (Replaced new db) (insert_analysis new) copy_rest s₁
            (OnOk-context _ (Created new.analysis s₁) (create_analysis new.analysis) s₁
              (create_analysis-OnOk new.analysis s₁))
            λ row s₂ created.
              OnOk-bind (λ _. Copied (map (stamp row.id) new.transactions) s₂) (Replaced new db)
                (copy_rows (map (stamp row.id) new.transactions)) (λ _. pure row) s₂
                (copy_rows-OnOk (map (stamp row.id) new.transactions) s₂)
                λ _ s₃ copied.
                  Replaced-of_effects s₀ s₁ s₂ s₃ row same serial deleted created copied

Replaced-stable :
    (new : NewAnalysis) (db : Db) (row : Analysis) (s t : Db)
    → SameTables s t
    → Replaced new db row s
    → Replaced new db row t
Replaced-stable new db row s t same r = record {
  columns = r.columns;
  only = rw same.analyses r.only;
  others = rw same.analyses r.others;
  rows = rw same.transactions r.rows;
}

pub replace_analysis-OnOk :
    (new : NewAnalysis) (db : Db)
    → All (Refers db.analyses) db.transactions
    → OnOk (Replaced new db) (replace_analysis new db)
unfolding replace_analysis
replace_analysis-OnOk new db refers =
    in_tx-OnOk (Replaced new db) (λ row s t. Replaced-stable new db row s t) (write_analysis new) db
      (write_analysis-OnOk new db refers)

-- In tables whose transactions refer to analyses that are there, when replacing an analysis returns a
-- row, the upload has that row as its one analysis, with the new columns; the analyses of all other
-- uploads are as they were; and the transactions of the row are the new ones, in order, however often
-- the upload was analysed before.
pub replace_analysis-Replaced :
    (new : NewAnalysis) (db : Db) {row : Analysis} {db' : Db}
    → All (Refers db.analyses) db.transactions
    → replace_analysis new db ≡ (ok row, db')
    → Replaced new db row db'
replace_analysis-Replaced new db refers h =
    subst (OnOk (Replaced new db)) h (replace_analysis-OnOk new db refers)
