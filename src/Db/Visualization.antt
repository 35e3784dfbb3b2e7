-- ===== src/Db/Visualization.antt =====
-- internal/db/visualization.sql.go: the rows of its queries, and the aggregates over the transactions of an analysis. Money columns are
-- exact here; the cast of a column to float8 is applied where a row is read. It keeps the order of amounts
-- of up to fifteen digits.
pub mod Series
pub mod Totals
pub mod Groups
pub mod Closing
pub mod Balances
use bankstmt_analyzer.Prelude.{
  ◌+◌, ℕ, Bool, true, false, not, ◌&&◌, ◌||◌, Option, none, some, List, [], ◌∷◌, map, ◌==◌, leb,
  length, ltb, if◌then◌else◌,
}
use bankstmt_analyzer.Text.{Bytes, codes, bytes_eq, is_empty}
use bankstmt_analyzer.Go.Monad.{gets, ◌>>=◌, ◌>>◌}
use bankstmt_analyzer.Db.{Uuid, Direction, credit, debit, Date, Numeric, Transaction, Db}
use bankstmt_analyzer.Db.Months.{Month, Day, day_le, day_of, date_trunc, to_char}
use bankstmt_analyzer.Db.Queries.{Query, where_rows, send}
use bankstmt_analyzer.Db.Sums.{sum, plus, minus, group_by}

-- The arguments of the six windowed queries: each has a type of its own with these fields.
pub record WindowParams : Type 0 where
  pub analysis : Uuid
  pub period_start : Day
  pub period_end : Day

abbrev pub is_debit : Transaction → Bool
is_debit t = elim t.direction [ debit ↦ true | credit ↦ false ]

abbrev pub is_credit : Transaction → Bool
is_credit t = not (is_debit t)

-- `WHERE analysis_id = $1 AND txn_date >= $2 AND txn_date <= $3`
abbrev pub in_window : WindowParams → Transaction → Bool
in_window p t =
    t.analysis_id == p.analysis
    && day_le p.period_start (day_of t.txn_date)
    && day_le (day_of t.txn_date) p.period_end

-- `COALESCE(NULLIF(category, ''), 'Uncategorised')`
abbrev pub category_name : Transaction → Bytes
category_name t = if is_empty t.category then codes "Uncategorised" else t.category

abbrev pub month_name : Transaction → Bytes
unfolding to_char
month_name t = to_char t.txn_date

-- `a > b` on amounts
abbrev pub greater : Numeric → Numeric → Bool
greater a b = ltb (plus b + minus a) (plus a + minus b)

pub record GetTransactionMonthBoundsRow : Type 0 where
  pub first_month : Option Month
  pub last_month : Option Month

pub record MonthlyIncomeVsSpendingRow : Type 0 where
  pub month : Bytes
  pub income : Numeric
  pub spending : Numeric

pub record CategoryBreakdownRow : Type 0 where
  pub category : Bytes
  pub amount : Numeric
  pub transaction_count : ℕ

pub record MonthlyByCategoryRow : Type 0 where
  pub month : Bytes
  pub category : Bytes
  pub amount : Numeric

pub record EssentialVsDiscretionaryRow : Type 0 where
  pub month : Bytes
  pub essential : Numeric
  pub discretionary : Numeric

pub record BalanceOverTimeRow : Type 0 where
  pub txn_date : Date
  pub balance : Numeric

pub record WindowSummaryRow : Type 0 where
  pub total_income : Numeric
  pub total_spending : Numeric
  pub essential_spending : Numeric
  pub recurring_spending : Numeric
  pub transaction_count : ℕ
  pub month_count : ℕ

-- `MIN` and `MAX`: NULL without rows.
abbrev merge : (ℕ → ℕ → Bool) → ℕ → Option ℕ → Option ℕ
merge keep n none = some n
merge keep n (some m) = some (if keep n m then n else m)

abbrev pub extreme : (ℕ → ℕ → Bool) → List Transaction → Option Month
extreme keep [] = none
extreme keep (t ∷ rest) = merge keep (date_trunc t.txn_date) (extreme keep rest)

-- `GetTransactionMonthBounds`
unfoldable pub month_bounds : Uuid → List Transaction → GetTransactionMonthBoundsRow
month_bounds analysis ts =
    let rows = where_rows (λ t. t.analysis_id == analysis) ts in
    record { first_month = extreme leb rows; last_month = extreme (λ a b. leb b a) rows }

-- `COUNT(DISTINCT date_trunc('month', txn_date))`
abbrev pub count_months : List Transaction → ℕ
unfolding group_by
count_months ts = length (group_by (λ a b. a == b) (λ t. date_trunc t.txn_date) ts)

-- `WindowSummary`
unfoldable pub summary_row : WindowParams → List Transaction → WindowSummaryRow
unfolding group_by
summary_row p ts =
    let rows = where_rows (in_window p) ts in
    record {
      total_income = sum (λ t. t.amount) (where_rows is_credit rows);
      total_spending = sum (λ t. t.amount) (where_rows is_debit rows);
      essential_spending = sum (λ t. t.amount) (where_rows (λ t. is_debit t && t.essential) rows);
      recurring_spending = sum (λ t. t.amount) (where_rows (λ t. is_debit t && t.recurring) rows);
      transaction_count = length rows;
      month_count = count_months rows;
    }

-- The debits in the window.
abbrev pub debits : WindowParams → List Transaction → List Transaction
debits p ts = where_rows (λ t. in_window p t && is_debit t) ts

unfoldable pub get_transaction_month_bounds : Uuid → Query GetTransactionMonthBoundsRow
unfolding send
get_transaction_month_bounds analysis = do send; gets (λ db. month_bounds analysis db.transactions)

unfoldable pub window_summary : WindowParams → Query WindowSummaryRow
unfolding send
window_summary p = do send; gets (λ db. summary_row p db.transactions)
