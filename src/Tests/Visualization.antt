-- ===== src/Tests/Visualization.antt =====
-- Concrete runs of the visualization's queries and handler.
use bankstmt_analyzer.Prelude.{
  ℕ, ◌-◌, ◌/◌, ◌≡◌, refl, Bool, true, false, Option, none, some, List, [], ◌∷◌, ◌==◌, ltb, length,
  All, arith, if◌then◌else◌,
}
use bankstmt_analyzer.Text.{Bytes, codes}
use bankstmt_analyzer.Go.Float.{Float64}
use bankstmt_analyzer.Db.{
  Uuid, Direction, credit, debit, completed, Numeric, CreateTransactionsParams, Transaction, Upload,
  Analysis, Db,
}
use bankstmt_analyzer.Db.Months.{month_of}
use bankstmt_analyzer.Db.Store.Atomic.{SameTables}
use bankstmt_analyzer.Db.Sums.{plus, sum, weigh, net}
use bankstmt_analyzer.Db.Visualization.{WindowParams, debits, summary_row, month_bounds}
use bankstmt_analyzer.Db.Visualization.Series.{category_rows, balance_rows}
use bankstmt_analyzer.Db.Visualization.Totals.{category_rows-totals}
use bankstmt_analyzer.Db.Visualization.Groups.{
  of_category, rows_of, one_row_if_any, category_rows-grouped,
}
use bankstmt_analyzer.Db.Visualization.Balances.{
  IsClosing, HasPoint, with_balance, Ascending, balance_rows-closings,
}
use bankstmt_analyzer.Http.Problem.{json, status_code}
use bankstmt_analyzer.Http.Visualization.Handler.{get}
use bankstmt_analyzer.Http.Visualization.Handler.Answers.{body, get-found, get-not_completed}
use bankstmt_analyzer.Http.Visualization.Handler.Unchanged.{get-SameTables}
use bankstmt_analyzer.Http.Visualization.{anchor_month}
use bankstmt_analyzer.Http.Window.{MonthWindow, resolve_window}
use bankstmt_analyzer.Tests.Data.{columns, upload_row, two_uploads, rent, uuid_text, request}

-- Amounts in cents stand for float64.
abbrev cents : Float64
cents = record {
  Carrier = ℕ;
  of_numeric = plus;
  of_count = λ n. n;
  subtract = λ a b. a - b;
  divide = λ a b. a / b;
  is_zero = λ a. a == 0;
  zero = 0;
}

-- Texts in the order of their bytes.
collate : Bytes → Bytes → Bool
collate [] b = true
collate (c ∷ s) [] = false
collate (c ∷ s) (d ∷ t) = let rest = collate s t in if c == d then rest else ltb c d

abbrev paid : ℕ → ℕ → Direction → Bytes → ℕ → CreateTransactionsParams
paid month day direction category amount = record (rent 10) {
  txn_date = record { year = 2024; month = month; day = day };
  direction = direction;
  category = category;
  amount = record { negative = false; cents = amount };
  balance_after = some (record { negative = false; cents = 1000 - amount });
  essential = false;
}

-- A salary, two debits in February, one without a category, and the rent.
abbrev statement : List Transaction
statement =
    record { serial = 0; columns = paid 1 31 credit (codes "salary") 900 }
    ∷ record { serial = 1; columns = paid 2 3 debit (codes "food") 40 }
    ∷ record { serial = 2; columns = paid 2 3 debit [] 60 }
    ∷ record { serial = 3; columns = rent 10 }
    ∷ []

abbrev quarter : WindowParams
quarter = record {
  analysis = 10;
  period_start = record { in_month = month_of 2024 1; day = 1 };
  period_end = record { in_month = month_of 2024 3; day = 31 };
}

abbrev cent : ℕ → Numeric
cent n = record { negative = false; cents = n }

by_category :
    category_rows collate quarter statement
    ≡ record { category = codes "housing"; amount = cent 95000; transaction_count = 1 }
      ∷ record { category = codes "Uncategorised"; amount = cent 60; transaction_count = 1 }
      ∷ record { category = codes "food"; amount = cent 40; transaction_count = 1 }
      ∷ []
unfolding category_rows net
by_category = refl

by_day :
    balance_rows quarter statement
    ≡ record { txn_date = record { year = 2024; month = 1; day = 31 }; balance = cent 100 }
      ∷ record { txn_date = record { year = 2024; month = 2; day = 3 }; balance = cent 940 }
      ∷ []
unfolding balance_rows
by_day = refl

category_rows-totals_example :
    (sum (λ r. r.amount) (category_rows collate quarter statement)
      ≡ (summary_row quarter statement).total_spending)
    × (weigh (λ r. r.transaction_count) (category_rows collate quarter statement)
        ≡ length (debits quarter statement))
category_rows-totals_example = category_rows-totals collate quarter statement

category_rows-grouped_example :
    All
      (λ r.
        (r.amount ≡ sum (λ t. t.amount) (of_category quarter statement r.category))
        × (r.transaction_count ≡ length (of_category quarter statement r.category)))
      (category_rows collate quarter statement)
    × (rows_of (codes "food") (category_rows collate quarter statement)
        ≡ one_row_if_any (of_category quarter statement (codes "food")))
category_rows-grouped_example = category_rows-grouped collate quarter statement (codes "food")

balance_rows-closings_example :
    All (HasPoint (balance_rows quarter statement)) (with_balance quarter statement)
    × All (IsClosing quarter statement) (balance_rows quarter statement)
    × Ascending (balance_rows quarter statement)
balance_rows-closings_example = balance_rows-closings quarter statement

abbrev done : Upload
done = record (upload_row 1) { status = completed }

abbrev analysis : Analysis
analysis = record { columns = columns 10 1; created_at = 6 }

abbrev analysed : Db
analysed = record two_uploads { uploads = done ∷ upload_row 2 ∷ []; transactions = statement }

-- An id is written as the one byte that is its number.
abbrev parse : Bytes → Option Uuid
parse [] = none
parse (c ∷ s) = some c

abbrev no_query : Bytes → Bytes
no_query name = []

-- The three months up to the last one with data.
abbrev last_months : MonthWindow
last_months = record { from = month_of 2023 12; to = month_of 2024 2 }

get-found_example :
    get cents collate uuid_text parse request no_query (month_of 2024 6) (1 ∷ []) analysed
    ≡ (json 200 (body cents collate analysis last_months analysed), analysed)
unfolding resolve_window anchor_month month_bounds
get-found_example =
    get-found cents collate uuid_text parse request no_query (month_of 2024 6) (1 ∷ []) analysed 1
      done analysis last_months refl refl refl refl refl refl

get-not_completed_example :
    status_code
      (get cents collate uuid_text parse request no_query (month_of 2024 6) (2 ∷ []) analysed).0
    ≡ 409
get-not_completed_example =
    get-not_completed cents collate uuid_text parse request no_query (month_of 2024 6) (2 ∷ [])
      analysed 2 (upload_row 2) refl refl refl (ground arith)

get-SameTables_example :
    SameTables analysed
      (get cents collate uuid_text parse request no_query (month_of 2024 6) (1 ∷ []) analysed).1
get-SameTables_example =
    get-SameTables cents collate uuid_text parse request no_query (month_of 2024 6) (1 ∷ [])
      analysed
