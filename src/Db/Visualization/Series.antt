-- ===== src/Db/Visualization/Series.antt =====
-- internal/db/visualization.sql.go: the queries that return one row for each group of transactions, and the
-- closing balances. Texts are compared in the order of the database's collation, which is a parameter:
-- `collate a b` says that `a` does not come after `b`.
use bankstmt_analyzer.Prelude.{
  Bool, true, false, not, ◌&&◌, ◌||◌, Option, none, some, List, [], ◌∷◌, map, ◌==◌, leb, ltb,
  length, if◌then◌else◌,
}
use bankstmt_analyzer.Text.{Bytes, bytes_eq}
use bankstmt_analyzer.Go.Monad.{gets, ◌>>◌}
use bankstmt_analyzer.Db.{Date, Numeric, Transaction}
use bankstmt_analyzer.Db.Months.{date_trunc}
use bankstmt_analyzer.Db.Queries.{Query, where_rows, send}
use bankstmt_analyzer.Db.Sums.{sum, order_by, group_by}
use bankstmt_analyzer.Db.Visualization.{
  WindowParams, is_debit, is_credit, in_window, debits, category_name, month_name, greater,
  MonthlyIncomeVsSpendingRow, CategoryBreakdownRow, MonthlyByCategoryRow,
  EssentialVsDiscretionaryRow, BalanceOverTimeRow,
}

-- The sum of the amounts of the rows that a FILTER keeps.
abbrev pub sum_where : (Transaction → Bool) → List Transaction → Numeric
sum_where p rows = sum (λ t. t.amount) (where_rows p rows)

-- The rows of a month, or of a category, are made from the group's key and its transactions.
abbrev pub income_row : Bytes × List Transaction → MonthlyIncomeVsSpendingRow
income_row g = record {
  month = g.0;
  income = sum_where is_credit g.1;
  spending = sum_where is_debit g.1;
}

abbrev pub category_row : Bytes × List Transaction → CategoryBreakdownRow
category_row g = record {
  category = g.0;
  amount = sum (λ t. t.amount) g.1;
  transaction_count = length g.1;
}

abbrev pub month_category_row : (Bytes × Bytes) × List Transaction → MonthlyByCategoryRow
month_category_row g = record { month = g.0.0; category = g.0.1; amount = sum (λ t. t.amount) g.1 }

abbrev pub split_row : Bytes × List Transaction → EssentialVsDiscretionaryRow
split_row g = record {
  month = g.0;
  essential = sum_where (λ t. t.essential) g.1;
  discretionary = sum_where (λ t. not t.essential) g.1;
}

-- The two texts of a key are compared one after the other.
abbrev pub same_key : Bytes × Bytes → Bytes × Bytes → Bool
same_key a b = bytes_eq a.0 b.0 && bytes_eq a.1 b.1

abbrev pub month_and_category : Transaction → Bytes × Bytes
month_and_category t = (month_name t, category_name t)

module _ (collate : Bytes → Bytes → Bool) where
  -- `ORDER BY 1`, where column 1 is the month
  abbrev pub earlier_income : MonthlyIncomeVsSpendingRow → MonthlyIncomeVsSpendingRow → Bool
  earlier_income a b = collate a.month b.month

  abbrev pub earlier_split : EssentialVsDiscretionaryRow → EssentialVsDiscretionaryRow → Bool
  earlier_split a b = collate a.month b.month

  -- `ORDER BY 2 DESC, 1`
  abbrev pub larger_category : CategoryBreakdownRow → CategoryBreakdownRow → Bool
  larger_category a b =
      greater a.amount b.amount || not (greater b.amount a.amount) && collate a.category b.category

  -- `ORDER BY 1, 3 DESC, 2`
  abbrev pub larger_month_category : MonthlyByCategoryRow → MonthlyByCategoryRow → Bool
  larger_month_category a b =
      if bytes_eq a.month b.month
      then greater a.amount b.amount
        || not (greater b.amount a.amount) && collate a.category b.category
      else collate a.month b.month

  -- `MonthlyIncomeVsSpending`
  unfoldable pub income_rows : WindowParams → List Transaction → List MonthlyIncomeVsSpendingRow
  unfolding bytes_eq group_by order_by
  income_rows p ts =
      order_by earlier_income
        (map income_row (group_by bytes_eq month_name (where_rows (in_window p) ts)))

  -- `CategoryBreakdown`
  unfoldable pub category_rows : WindowParams → List Transaction → List CategoryBreakdownRow
  unfolding bytes_eq group_by order_by
  category_rows p ts =
      order_by larger_category (map category_row (group_by bytes_eq category_name (debits p ts)))

  -- `MonthlyByCategory`
  unfoldable pub month_category_rows : WindowParams → List Transaction → List MonthlyByCategoryRow
  unfolding group_by order_by
  month_category_rows p ts =
      order_by larger_month_category
        (map month_category_row (group_by same_key month_and_category (debits p ts)))

  -- `EssentialVsDiscretionary`
  unfoldable pub split_rows : WindowParams → List Transaction → List EssentialVsDiscretionaryRow
  unfolding bytes_eq group_by order_by
  split_rows p ts =
      order_by earlier_split (map split_row (group_by bytes_eq month_name (debits p ts)))

  unfoldable pub monthly_income_vs_spending : WindowParams → Query (List MonthlyIncomeVsSpendingRow)
  unfolding send income_rows
  monthly_income_vs_spending p = do send; gets (λ db. income_rows p db.transactions)

  unfoldable pub category_breakdown : WindowParams → Query (List CategoryBreakdownRow)
  unfolding send category_rows
  category_breakdown p = do send; gets (λ db. category_rows p db.transactions)

  unfoldable pub monthly_by_category : WindowParams → Query (List MonthlyByCategoryRow)
  unfolding send month_category_rows
  monthly_by_category p = do send; gets (λ db. month_category_rows p db.transactions)

  unfoldable pub essential_vs_discretionary :
      WindowParams → Query (List EssentialVsDiscretionaryRow)
  unfolding send split_rows
  essential_vs_discretionary p = do send; gets (λ db. split_rows p db.transactions)

-- The dates are the same day.
abbrev pub same_day : Date → Date → Bool
same_day d e = date_trunc d == date_trunc e && d.day == e.day

abbrev pub day_before : Date → Date → Bool
day_before d e =
    ltb (date_trunc d) (date_trunc e) || date_trunc d == date_trunc e && ltb d.day e.day

-- `ORDER BY txn_date, id DESC`
abbrev pub later_first : Transaction → Transaction → Bool
later_first a b =
    day_before a.txn_date b.txn_date || same_day a.txn_date b.txn_date && leb b.serial a.serial

-- `DISTINCT ON (txn_date)`: the first row of each day, where the rows of a day stand together.
unfoldable pub first_of_day : Option Date → List Transaction → List Transaction
first_of_day last [] = []
first_of_day none (t ∷ rest) = t ∷ first_of_day (some t.txn_date) rest
first_of_day (some d) (t ∷ rest) =
    let after = first_of_day (some t.txn_date) rest in
    if same_day d t.txn_date then after else t ∷ after

abbrev pub has_balance : Transaction → Bool
has_balance t = elim t.balance_after [ none ↦ false | some b ↦ true ]

-- The point of a transaction; `none`, which the WHERE clause excludes, gives none.
abbrev pub add_point : Date → Option Numeric → List BalanceOverTimeRow → List BalanceOverTimeRow
add_point d none rest = rest
add_point d (some b) rest = record { txn_date = d; balance = b } ∷ rest

abbrev pub points : List Transaction → List BalanceOverTimeRow
points [] = []
points (t ∷ rest) = add_point t.txn_date t.balance_after (points rest)

-- `BalanceOverTime`
unfoldable pub balance_rows : WindowParams → List Transaction → List BalanceOverTimeRow
unfolding order_by first_of_day
balance_rows p ts =
    points (
      first_of_day none
        (order_by later_first (where_rows (λ t. in_window p t && has_balance t) ts)))

unfoldable pub balance_over_time : WindowParams → Query (List BalanceOverTimeRow)
unfolding send balance_rows
balance_over_time p = do send; gets (λ db. balance_rows p db.transactions)
