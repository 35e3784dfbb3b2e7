-- ===== src/Pipeline/Convert/Rows.antt =====
-- The rows that `buildAnalysis` (internal/pipeline/convert.go) makes of the reply's transactions.
use bankstmt_analyzer.Prelude.{◌≡◌, sym, ap, ◌⊎◌, true, false, Option, none, some, List, [], ◌∷◌}
use bankstmt_analyzer.Text.{Bytes, is_empty}
use bankstmt_analyzer.Text.Space.{trim_space}
use bankstmt_analyzer.Go.{Result, ok}
use bankstmt_analyzer.Go.Results.{ok-injective, >>=-eq-ok}
use bankstmt_analyzer.Db.{Uuid, debit, Numeric, CreateTransactionsParams}
use bankstmt_analyzer.Db.Store.{NewAnalysis}
use bankstmt_analyzer.Llm
use bankstmt_analyzer.Pipeline.Convert.{
  parse_date, split_sign, synonym, direction_key, build_transactions, build_analysis,
}

module _ (scan : Bytes → Result Numeric) where
  -- The balance is the one that was written, if any was.
  abbrev pub IsBalance : Option Bytes → Option Numeric → Type 0
  IsBalance none balance = balance ≡ none
  IsBalance (some v) balance =
      ((is_empty (trim_space v) ≡ true) × (balance ≡ none))
      ⊎ ((is_empty (trim_space v) ≡ false) × (n : Numeric) × (scan v ≡ ok n) × (balance ≡ some n))

  -- The row says what the model said of the transaction.
  pub record IsRow (t : Llm.Transaction) (row : CreateTransactionsParams) : Type 0 where
    pub date : parse_date (trim_space t.date) ≡ some row.txn_date
    pub amount : scan (split_sign t.amount).0 ≡ ok row.amount
    pub direction :
        (synonym (direction_key t.direction) ≡ some row.direction)
        ⊎ ((synonym (direction_key t.direction) ≡ none)
            × ((split_sign t.amount).1 ≡ true)
            × (row.direction ≡ debit))
    pub description : row.description ≡ trim_space t.description
    pub counterparty : row.counterparty ≡ trim_space t.counterparty
    pub balance : IsBalance t.balance_after row.balance_after
    pub category : row.category ≡ trim_space t.category
    pub essential : row.essential ≡ t.essential
    pub recurring : row.recurring ≡ t.recurring

  abbrev pub AllRows : List Llm.Transaction → List CreateTransactionsParams → Type 0
  AllRows [] [] = Unit
  AllRows (t ∷ ts) (r ∷ rs) = IsRow t r × AllRows ts rs
  AllRows _ _ = ⊥

  pub build_analysis-upload :
      (id u : Uuid) (resp : Llm.Response) {new : NewAnalysis}
      → build_analysis scan id u resp ≡ ok new
      → new.analysis.upload_id ≡ u
  unfolding build_analysis
  build_analysis-upload id u resp h =
      let (rows, e, k) = >>=-eq-ok (build_transactions scan 0 resp.transactions) _ h in
      ap (λ n. n.analysis.upload_id) (sym (ok-injective k))
