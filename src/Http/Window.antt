-- ===== src/Http/Window.antt =====
-- internal/http/window.go: the months that the visualization reports on. A month is its number, counted
-- from January of the year before year 0, so that the months of years 0 to 9999 have eleven months before
-- them; the first day of a month in UTC stands for the month.
pub mod Months
use bankstmt_analyzer.Prelude.{
  ℕ, ◌+◌, ◌-◌, ◌*◌, ◌/◌, ◌%◌, Bool, true, false, ◌&&◌, ◌||◌, Option, none, some, List, [], ◌∷◌,
  ◌++◌, ◌==◌, ltb, leb, if◌then◌else◌,
}
use bankstmt_analyzer.Text.{Bytes, codes, is_empty}
use bankstmt_analyzer.Text.Decimal.{print_decimal}
use bankstmt_analyzer.Db.{Date}
pub use bankstmt_analyzer.Db.Months.{Month, month_of}
use bankstmt_analyzer.Http.Problem.{Problem, InvalidParam, new_problem}
use bankstmt_analyzer.Pipeline.Convert.{is_digit, digit, days_in}

abbrev pub default_window_months : ℕ
default_window_months = 3

abbrev pub max_window_months : ℕ
max_window_months = 12

-- `monthWindow`: both months belong to it.
pub record MonthWindow : Type 0 where
  pub from : Month
  pub to : Month

-- A value, or the problem with the request.
pub data Checked (A : Type 0) : Type 0 where
  accepted : A → Checked A
  rejected : Problem → Checked A

-- `periodEnd`: the last day of the window's last month, which is in year 0 or later.
unfoldable pub period_end : MonthWindow → Date
unfolding days_in
period_end w =
    let year = w.to / 12 - 1 in
    let month = w.to % 12 + 1 in record { year = year; month = month; day = days_in year month }

-- The digits of `strconv.Atoi`, with the number that stands before them.
digits_value : ℕ → Bytes → Option ℕ
digits_value n [] = some n
digits_value n (c ∷ s) =
    let rest = digits_value (n * 10 + digit c) s in if is_digit c then rest else none

abbrev some_digits : Bytes → Option ℕ
some_digits [] = none
some_digits (c ∷ s) = digits_value 0 (c ∷ s)

-- `strconv.Atoi` where a number of one or more matters only: a minus gives none.
unfoldable pub atoi : Bytes → Option ℕ
unfolding digits_value
atoi [] = none
atoi (c ∷ s) = if c == b'+' then some_digits s else some_digits (c ∷ s)

-- The refusal in `parseMonths`.
months_problem : Problem
unfolding new_problem print_decimal
months_problem =
    record (new_problem 400 (
      codes "`months` must be a whole number between 1 and "
      ++ (print_decimal max_window_months ++ codes "."))) {
        invalid_params =
            record {
              name = codes "months";
              reason = codes "must be between 1 and " ++ print_decimal max_window_months;
            }
            ∷ [];
      }

-- `parseMonths`
unfoldable pub parse_months : Bytes → Checked ℕ
unfolding atoi months_problem
parse_months [] = accepted default_window_months
parse_months (c ∷ raw) = elim (atoi (c ∷ raw)) [
  | none ↦ rejected months_problem
  | some months ↦
      if ltb months 1 || ltb max_window_months months
      then rejected months_problem
      else accepted months
]

-- The month of a year, if the digits and the hyphen are in place and the calendar has it.
check_month : Bool → ℕ → ℕ → Option Month
check_month well_formed year month =
    if well_formed && leb 1 month && leb month 12 then some (month_of year month) else none

-- `time.ParseInLocation("2006-01", …)`
unfoldable pub parse_month : Bytes → Option Month
unfolding check_month
parse_month (a ∷ b ∷ c ∷ d ∷ h ∷ e ∷ f ∷ []) =
    check_month
      (is_digit a
        && is_digit b
        && is_digit c
        && is_digit d
        && h == b'-'
        && is_digit e
        && is_digit f)
      (digit a * 1000 + digit b * 100 + digit c * 10 + digit d) (digit e * 10 + digit f)
parse_month _ = none

-- `parseMonthParam`; `query` is what `Get` returns. `none` is a parameter that is not there.
unfoldable pub parse_month_param : (Bytes → Bytes) → Bytes → Checked (Option Month)
unfolding parse_month new_problem
parse_month_param query name =
    if is_empty (query name) then accepted none else elim (parse_month (query name)) [
      | some month ↦ accepted (some month)
      | none ↦
          rejected
            (record (new_problem 400
              (codes "`" ++ (name ++ codes "` must be a month in YYYY-MM format."))) {
                invalid_params = record { name = name; reason = codes "expected YYYY-MM" } ∷ [];
              })
    ]

-- `maxMonth`
abbrev pub max_month : Month → Month → Month
max_month a b = if ltb b a then a else b

-- The switch of `resolveWindow`.
abbrev pub choose : ℕ → Option Month → Option Month → Month → MonthWindow
choose months (some from) (some to) anchor = record { from = from; to = to }
choose months (some from) none anchor = record { from = from; to = max_month from anchor }
choose months none (some to) anchor = record { from = to - (months - 1); to = to }
choose months none none anchor = record { from = anchor - (months - 1); to = anchor }

-- The end of `resolveWindow`.
check_order : MonthWindow → Checked MonthWindow
unfolding new_problem
check_order w =
    if ltb w.to w.from
    then rejected (record (new_problem 400 (codes "`from` must not be later than `to`.")) {
      invalid_params = record { name = codes "from"; reason = codes "later than to" } ∷ [];
    })
    else accepted w

module _ {A B : Type 0} where
  -- `if problem != nil { return monthWindow{}, problem }`
  infixl 5 ◌>>=◌
  abbrev ◌>>=◌ : Checked A → (A → Checked B) → Checked B
  rejected p >>= rest = rejected p
  accepted a >>= rest = rest a

-- `resolveWindow`, where `anchor` is the month that `truncateToMonth` gives.
unfoldable pub resolve_window : (Bytes → Bytes) → Month → Checked MonthWindow
unfolding parse_months parse_month_param check_order
resolve_window query anchor = do
  months ← parse_months (query (codes "months"))
  from ← parse_month_param query (codes "from")
  to ← parse_month_param query (codes "to")
  check_order (choose months from to anchor)
