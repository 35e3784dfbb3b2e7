-- ===== src/Db/Visualization/Groups.antt =====
-- The groups of the queries of internal/db/visualization.sql.go are the categories and the months of the
-- transactions, each once.
use bankstmt_analyzer.Prelude.{
  ℕ, ◌≡◌, refl, ap, ◌∙◌, Bool, true, ◌&&◌, List, [], ◌∷◌, map, arith, length, if◌then◌else◌, All,
  All-mono, All-map,
}
use bankstmt_analyzer.Text.{Bytes, bytes_eq}
use bankstmt_analyzer.Text.Equal.{bytes_eq_refl, bytes_eq_sound}
use bankstmt_analyzer.Db.{Transaction}
use bankstmt_analyzer.Db.Queries.{where_rows}
use bankstmt_analyzer.Db.Sums.{weigh, sum, group_by, weigh-order_by, weigh-map}
use bankstmt_analyzer.Db.Sums.Keys.{
  Decides, occurs-group_by, occurs-group_by_eq, one_if_any, lookup-group_by, lookup, found-lookup,
  All-order_by,
}
use bankstmt_analyzer.Db.Visualization.{
  WindowParams, CategoryBreakdownRow, debits, category_name, month_name,
}
use bankstmt_analyzer.Db.Visualization.Series.{
  category_row, month_category_row, same_key, month_and_category, larger_category,
  larger_month_category, category_rows, month_category_rows,
}

bytes_eq-Decides : Decides bytes_eq
bytes_eq-Decides = record { reflexive = bytes_eq_refl; sound = bytes_eq_sound }

-- The groups of a table by a key that is compared by a test of equality.
module _ {K A : Type 0} {same : K → K → Bool} (decides : Decides same) (key : A → K)
    (rows : List A) where
  groups-exact : All (λ g. g.1 ≡ where_rows (λ a. same g.0 (key a)) rows) (group_by same key rows)
  groups-exact =
      All-mono (λ g. g.1 ≡ lookup same decides g.0 (group_by same key rows))
        (λ g. g.1 ≡ where_rows (λ a. same g.0 (key a)) rows)
        (λ g h. h ∙ lookup-group_by same decides key g.0 rows) (group_by same key rows)
        (found-lookup same decides (group_by same key rows)
          λ c. occurs-group_by same decides key c rows)

same_key_sound : (a b : Bytes × Bytes) → same_key a b ≡ true → a ≡ b
same_key_sound a b h = ground (arith, bytes_eq_sound a.0 b.0, bytes_eq_sound a.1 b.1)

same_key-Decides : Decides same_key
same_key-Decides = record {
  reflexive = λ k. rw (bytes_eq_refl k.0, bytes_eq_refl k.1) refl;
  sound = same_key_sound;
}

-- The debits of the window that are in the category of the row.
abbrev pub of_category : WindowParams → List Transaction → Bytes → List Transaction
of_category p ts name = where_rows (λ t. bytes_eq name (category_name t)) (debits p ts)

abbrev pub of_month_and_category :
    WindowParams → List Transaction → Bytes → Bytes → List Transaction
of_month_and_category p ts month name =
    where_rows (λ t. bytes_eq month (month_name t) && bytes_eq name (category_name t)) (debits p ts)

-- How many rows a category has.
abbrev pub rows_of : Bytes → List CategoryBreakdownRow → ℕ
rows_of name rows = weigh (λ r. if bytes_eq name r.category then 1 else 0) rows

-- One row for the transactions, if there are any.
abbrev pub one_row_if_any : List Transaction → ℕ
one_row_if_any [] = 0
one_row_if_any (t ∷ rest) = 1

module _ (collate : Bytes → Bytes → Bool) (p : WindowParams) (ts : List Transaction) where
  category_rows-exact :
      All
        (λ r.
          (r.amount ≡ sum (λ t. t.amount) (of_category p ts r.category))
          × (r.transaction_count ≡ length (of_category p ts r.category)))
        (category_rows collate p ts)
  unfolding category_rows
  category_rows-exact = All-order_by _ (larger_category collate) _ (
      All-map _ category_row (group_by bytes_eq category_name (debits p ts)) (
        All-mono _ _ (λ g h. (ap (sum (λ t. t.amount)) h, ap length h)) _
          (groups-exact bytes_eq-Decides category_name (debits p ts))))

  category_rows-once :
      (name : Bytes)
      → rows_of name (category_rows collate p ts) ≡ one_row_if_any (of_category p ts name)
  unfolding category_rows
  category_rows-once name =
      weigh-order_by _ (larger_category collate)
        (map category_row (group_by bytes_eq category_name (debits p ts)))
      ∙ weigh-map _ category_row (group_by bytes_eq category_name (debits p ts))
      ∙ occurs-group_by_eq bytes_eq bytes_eq-Decides category_name name (debits p ts)
      ∙ any_eq (of_category p ts name)
    where
      any_eq :
          (rows : List Transaction)
          → one_if_any bytes_eq bytes_eq-Decides rows ≡ one_row_if_any rows
      any_eq [] = refl
      any_eq (t ∷ rest) = refl

  -- A category has one row in the category breakdown if the window has a debit of it, and else none; and each row
  -- has the sum and the number of all the window's debits of its category.
  pub category_rows-grouped :
      (name : Bytes)
      → All
          (λ r.
            (r.amount ≡ sum (λ t. t.amount) (of_category p ts r.category))
            × (r.transaction_count ≡ length (of_category p ts r.category)))
          (category_rows collate p ts)
        × (rows_of name (category_rows collate p ts) ≡ one_row_if_any (of_category p ts name))
  category_rows-grouped name = (category_rows-exact, category_rows-once name)

  -- Each row of the spending by month and category has the sum of all the window's debits of its month
  -- and its category.
  pub month_category_rows-exact :
      All
        (λ r. r.amount ≡ sum (λ t. t.amount) (of_month_and_category p ts r.month r.category))
        (month_category_rows collate p ts)
  unfolding month_category_rows
  month_category_rows-exact = All-order_by _ (larger_month_category collate) _ (
      All-map _ month_category_row (group_by same_key month_and_category (debits p ts)) (
        All-mono _ _ (λ g h. ap (sum (λ t. t.amount)) h) _
          (groups-exact same_key-Decides month_and_category (debits p ts))))
