-- ===== src/Db/Visualization/Totals.antt =====
-- The series of internal/db/visualization.sql.go agree with the summary of the same window.
use bankstmt_analyzer.Prelude.{
  ◌≡◌, refl, sym, ap, ◌∙◌, Bool, not, ◌&&◌, List, [], ◌∷◌, arith, length,
}
use bankstmt_analyzer.Text.{Bytes, bytes_eq}
use bankstmt_analyzer.Db.{Transaction}
use bankstmt_analyzer.Db.Queries.{where_rows}
use bankstmt_analyzer.Db.Sums.{
  weigh, sum, group_by, where_rows-twice, weigh-order_by, weigh-map, weigh-group_by,
}
use bankstmt_analyzer.Db.Sums.Groups.{sum-order_by-map, sum-group_by, sum-where-group_by}
use bankstmt_analyzer.Db.Visualization.{
  WindowParams, is_debit, is_credit, in_window, debits, category_name, month_name, summary_row,
}
use bankstmt_analyzer.Db.Visualization.Series.{
  sum_where, income_row, category_row, month_category_row, split_row, same_key, month_and_category,
  earlier_income, earlier_split, larger_category, larger_month_category, income_rows, category_rows,
  month_category_rows, split_rows,
}

-- The debits that a further condition keeps, out of the window's rows.
sum-debits :
    (p : WindowParams) (q : Transaction → Bool) (ts : List Transaction)
    → sum_where q (debits p ts) ≡ sum_where (λ t. is_debit t && q t) (where_rows (in_window p) ts)
sum-debits p q ts = ap (sum (λ t. t.amount)) (
    ap (where_rows q) (sym (where_rows-twice (in_window p) is_debit ts))
    ∙ where_rows-twice is_debit q (where_rows (in_window p) ts))

debits-eq :
    (p : WindowParams) (ts : List Transaction)
    → sum (λ t. t.amount) (debits p ts) ≡ (summary_row p ts).total_spending
unfolding summary_row
debits-eq p ts = ap (sum (λ t. t.amount)) (sym (where_rows-twice (in_window p) is_debit ts))

weigh-one : {A : Type 0} (rows : List A) → weigh (λ _. 1) rows ≡ length rows
weigh-one [] = refl
weigh-one (a ∷ rest) = omega (arith, weigh-one rest)

weigh-length :
    {K A : Type 0} (groups : List (K × List A))
    → weigh (λ g. length g.1) groups ≡ weigh (λ g. weigh (λ _. 1) g.1) groups
weigh-length [] = refl
weigh-length ((k, rows) ∷ rest) = omega (arith, weigh-one rows, weigh-length rest)

module _ (collate : Bytes → Bytes → Bool) (p : WindowParams) (ts : List Transaction) where
  category_rows-sum :
      sum (λ r. r.amount) (category_rows collate p ts) ≡ (summary_row p ts).total_spending
  unfolding category_rows
  category_rows-sum =
      sum-order_by-map (λ r. r.amount) (larger_category collate) category_row
        (group_by bytes_eq category_name (debits p ts))
      ∙ (sum-group_by bytes_eq category_name (debits p ts) (λ t. t.amount) ∙ debits-eq p ts)

  category_rows-count :
      weigh (λ r. r.transaction_count) (category_rows collate p ts) ≡ length (debits p ts)
  unfolding category_rows
  category_rows-count =
      weigh-order_by (λ r. r.transaction_count) (larger_category collate) _
      ∙ (weigh-map (λ r. r.transaction_count) category_row
            (group_by bytes_eq category_name (debits p ts))
          ∙ (weigh-length (group_by bytes_eq category_name (debits p ts))
              ∙ (weigh-group_by bytes_eq (λ _. 1) category_name (debits p ts)
                  ∙ weigh-one (debits p ts))))

  -- The amounts of all categories sum to the window's spending, and the transactions that they count are
  -- as many as the window's debits.
  pub category_rows-totals :
      (sum (λ r. r.amount) (category_rows collate p ts) ≡ (summary_row p ts).total_spending)
      × (weigh (λ r. r.transaction_count) (category_rows collate p ts) ≡ length (debits p ts))
  category_rows-totals = (category_rows-sum, category_rows-count)

  -- The amounts of all months and categories sum to the window's spending.
  pub month_category_rows-sum :
      sum (λ r. r.amount) (month_category_rows collate p ts) ≡ (summary_row p ts).total_spending
  unfolding month_category_rows
  month_category_rows-sum =
      sum-order_by-map (λ r. r.amount) (larger_month_category collate) month_category_row
        (group_by same_key month_and_category (debits p ts))
      ∙ (sum-group_by same_key month_and_category (debits p ts) (λ t. t.amount) ∙ debits-eq p ts)

  -- The monthly incomes sum to the window's income, and the monthly spendings to its spending.
  income_rows-sums :
      (sum (λ r. r.income) (income_rows collate p ts) ≡ (summary_row p ts).total_income)
      × (sum (λ r. r.spending) (income_rows collate p ts) ≡ (summary_row p ts).total_spending)
  unfolding income_rows summary_row
  income_rows-sums = (
    sum-order_by-map (λ r. r.income) (earlier_income collate) income_row _
        ∙ sum-where-group_by bytes_eq month_name (where_rows (in_window p) ts) (λ t. t.amount)
            is_credit,
    sum-order_by-map (λ r. r.spending) (earlier_income collate) income_row _
        ∙ sum-where-group_by bytes_eq month_name (where_rows (in_window p) ts) (λ t. t.amount)
            is_debit,
  )

  -- The essential and the discretionary spending of a column of the split.
  split-column :
      (q : Transaction → Bool)
      → sum
          (λ (g : Bytes × List Transaction). sum_where q g.1)
          (group_by bytes_eq month_name (debits p ts))
        ≡ sum_where (λ t. is_debit t && q t) (where_rows (in_window p) ts)
  split-column q =
      sum-where-group_by bytes_eq month_name (debits p ts) (λ t. t.amount) q ∙ sum-debits p q ts

  -- The monthly essential spendings sum to the window's essential spending, and the monthly
  -- discretionary ones to the sum of the window's debits that are not essential.
  pub split_rows-sums :
      (sum (λ r. r.essential) (split_rows collate p ts) ≡ (summary_row p ts).essential_spending)
      × (sum (λ r. r.discretionary) (split_rows collate p ts)
          ≡ sum_where (λ t. is_debit t && not t.essential) (where_rows (in_window p) ts))
  unfolding split_rows summary_row
  split_rows-sums = (
    sum-order_by-map (λ r. r.essential) (earlier_split collate) split_row _
        ∙ split-column (λ t. t.essential),
    sum-order_by-map (λ r. r.discretionary) (earlier_split collate) split_row _
        ∙ split-column (λ t. not t.essential),
  )
