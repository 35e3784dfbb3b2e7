-- ===== src/Pipeline/Convert.antt =====
-- internal/pipeline/convert.go: the model's reply as the rows to be written.
pub mod Dates
pub mod Rows
use bankstmt_analyzer.Prelude.{
  ℕ, ◌+◌, ◌-◌, ◌*◌, ◌%◌, Bool, true, false, ◌&&◌, ◌||◌, Option, none, some, List, [], ◌∷◌, ◌++◌,
  ◌==◌, leb, drop, if◌then◌else◌,
}
use bankstmt_analyzer.Text.{Bytes, codes, is_empty, bytes_eq, has_prefix, to_lower, quote}
use bankstmt_analyzer.Text.Decimal.{print_decimal}
use bankstmt_analyzer.Text.Space.{trim_space}
use bankstmt_analyzer.Go.{plain, Result, ok, err}
use bankstmt_analyzer.Go.Monad.{annotate}
use bankstmt_analyzer.Go.Results.{or_err, instead, ◌>>=◌}
use bankstmt_analyzer.Db.{
  Uuid, Direction, credit, debit, Date, Numeric, CreateAnalysisParams, CreateTransactionsParams,
}
use bankstmt_analyzer.Db.Store.{NewAnalysis}
use bankstmt_analyzer.Llm
use bankstmt_analyzer.Llm.Reply

abbrev pub is_digit : ℕ → Bool
is_digit c = leb b'0' c && leb c b'9'

abbrev pub digit : ℕ → ℕ
digit c = c - b'0'

unfoldable pub is_leap : ℕ → Bool
is_leap year = year % 4 == 0 && (if year % 100 == 0 then year % 400 == 0 else true)

unfoldable pub days_in : ℕ → ℕ → ℕ
unfolding is_leap
days_in year month =
    if month == 2
    then (if is_leap year then 29 else 28)
    else (if month == 4 || month == 6 || month == 9 || month == 11 then 30 else 31)

-- The day, if the calendar has it.
check_date : ℕ → ℕ → ℕ → Option Date
unfolding days_in
check_date year month day =
    if leb 1 month && leb month 12 && leb 1 day && leb day (days_in year month)
    then some (record { year = year; month = month; day = day })
    else none

-- `time.Parse("2006-01-02", s)`
unfoldable pub parse_date : Bytes → Option Date
unfolding check_date
parse_date (a ∷ b ∷ c ∷ d ∷ h ∷ e ∷ f ∷ k ∷ i ∷ j ∷ []) =
    if is_digit a
      && is_digit b
      && is_digit c
      && is_digit d
      && h == b'-'
      && is_digit e
      && is_digit f
      && k == b'-'
      && is_digit i
      && is_digit j
    then check_date (digit a * 1000 + digit b * 100 + digit c * 10 + digit d)
        (digit e * 10 + digit f) (digit i * 10 + digit j)
    else none
parse_date _ = none

-- `directionSynonyms`
abbrev pub direction_synonyms : List (Bytes × Direction)
direction_synonyms =
    (codes "credit", credit)
    ∷ (codes "credits", credit)
    ∷ (codes "in", credit)
    ∷ (codes "inflow", credit)
    ∷ (codes "income", credit)
    ∷ (codes "deposit", credit)
    ∷ (codes "debit", debit)
    ∷ (codes "debits", debit)
    ∷ (codes "out", debit)
    ∷ (codes "outflow", debit)
    ∷ (codes "expense", debit)
    ∷ (codes "spending", debit)
    ∷ (codes "payment", debit)
    ∷ (codes "withdraw", debit)
    ∷ []

lookup_direction : Bytes → List (Bytes × Direction) → Option Direction
lookup_direction key [] = none
lookup_direction key ((word, direction) ∷ rest) =
    if bytes_eq key word then some direction else lookup_direction key rest

-- The key that is looked up in `resolveDirection`.
unfoldable pub direction_key : Bytes → Bytes
unfolding trim_space to_lower
direction_key raw = to_lower (trim_space raw)

-- The value that `directionSynonyms` has for a key.
unfoldable pub synonym : Bytes → Option Direction
unfolding lookup_direction bytes_eq
synonym key = lookup_direction key direction_synonyms

unfoldable pub resolve_direction : Bytes → Bool → Result Direction
unfolding synonym direction_key
resolve_direction raw negative = elim (synonym (direction_key raw)) [
  | some direction ↦ ok direction
  | none ↦
      if negative
      then ok debit
      else if is_empty (direction_key raw)
      then err (plain (codes "direction is missing and the amount is not signed"))
      else err (
          plain
            (codes "direction " ++ (quote raw ++ codes " is not recognised as credit or debit")))
]

-- The magnitude and whether the sign is a minus.
unfoldable pub split_sign : Bytes → Bytes × Bool
unfolding trim_space has_prefix
split_sign amount =
    let amount' = trim_space amount in
    if has_prefix amount' (codes "-")
    then (trim_space (drop 1 amount'), true)
    else if has_prefix amount' (codes "+")
    then (trim_space (drop 1 amount'), false)
    else (amount', false)

-- `optionalDate`
unfoldable pub optional_date : Bytes → Option Date
unfolding parse_date trim_space
optional_date value = parse_date (trim_space value)

-- `jsonOrNil`
unfoldable pub json_or_nil : Bytes → Option Bytes
unfolding trim_space bytes_eq
json_or_nil raw =
    let trimmed = trim_space raw in
    if is_empty trimmed || bytes_eq trimmed (codes "null") then none else some raw

-- `pgtype.Numeric`'s `Scan`, which reads a decimal, is `scan`.
module _ (scan : Bytes → Result Numeric) where
  unfoldable pub numeric : Bytes → Result Numeric
  unfolding trim_space
  numeric value =
      if is_empty (trim_space value)
      then err (plain (codes "empty value"))
      else annotate (codes "parse " ++ quote value) (scan value)

  unfoldable pub optional_numeric : Option Bytes → Result (Option Numeric)
  unfolding numeric
  optional_numeric none = ok none
  optional_numeric (some value) =
      if is_empty (trim_space value) then ok none else do n ← numeric value; ok (some n)

  unfoldable pub build_transaction : Llm.Transaction → Result CreateTransactionsParams
  unfolding parse_date split_sign resolve_direction optional_numeric trim_space
  build_transaction txn = do
    when ←
        or_err (plain (codes "date " ++ (quote txn.date ++ codes " is not in YYYY-MM-DD form")))
          (parse_date (trim_space txn.date))
    let (magnitude, negative) = split_sign txn.amount
    amount ←
        instead (plain (codes "amount " ++ (quote txn.amount ++ codes " is not a number")))
          (numeric magnitude)
    direction ← resolve_direction txn.direction negative
    balance ← annotate (codes "balance_after is not a number") (optional_numeric txn.balance_after)
    ok (record {
      analysis_id = 0;
      txn_date = when;
      description = trim_space txn.description;
      counterparty = trim_space txn.counterparty;
      amount = amount;
      direction = direction;
      balance_after = balance;
      category = trim_space txn.category;
      essential = txn.essential;
      recurring = txn.recurring;
    })

  -- The loop of `buildAnalysis`, from index `i` on.
  unfoldable pub build_transactions :
      ℕ → List Llm.Transaction → Result (List CreateTransactionsParams)
  unfolding build_transaction print_decimal
  build_transactions i [] = ok []
  build_transactions i (t ∷ ts) = do
    row ← annotate (codes "transactions[" ++ (print_decimal i ++ codes "]")) (build_transaction t)
    rows ← build_transactions (i + 1) ts
    ok (row ∷ rows)

  abbrev analysis_columns : Uuid → Uuid → Llm.Response → CreateAnalysisParams
  analysis_columns id upload resp = record {
    id = id;
    upload_id = upload;
    currency = Reply.currency resp;
    period_start = optional_date (Reply.period_start resp);
    period_end = optional_date (Reply.period_end resp);
    monthly_summary = json_or_nil resp.analysis.monthly_summary;
    category_totals = json_or_nil resp.analysis.category_totals;
    recurring_payments = json_or_nil resp.analysis.recurring_payments;
    anomalies = json_or_nil resp.analysis.anomalies;
    key_insights = json_or_nil resp.analysis.key_insights;
    savings_plan = json_or_nil resp.savings_plan;
    chart_present = json_or_nil resp.chart_data.present;
    chart_forecast = json_or_nil resp.chart_data.forecast;
    raw_llm_json = json_or_nil resp.raw;
  }

  -- `buildAnalysis` on a reply that is there; `id` is what `uuid.New` gives.
  unfoldable pub build_analysis : Uuid → Uuid → Llm.Response → Result NewAnalysis
  unfolding build_transactions optional_date json_or_nil Reply.currency Reply.period_start
      Reply.period_end
  build_analysis id upload resp = do
    rows ← build_transactions 0 resp.transactions
    ok (record { analysis = analysis_columns id upload resp; transactions = rows })
