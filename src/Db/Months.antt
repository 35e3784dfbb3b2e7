-- ===== src/Db/Months.antt =====
-- Months by number and days within them: what internal/http/window.go and the statements of
-- internal/db/visualization.sql.go compare. A month is counted from January of the year before year 0,
-- since a window that ends in year 0 may begin in the year before.
use bankstmt_analyzer.Prelude.{
  ℕ, ◌+◌, ◌-◌, ◌*◌, ◌/◌, ◌%◌, [], ◌∷◌, ◌++◌, Bool, ◌&&◌, ◌||◌, ltb, leb, ◌==◌, if◌then◌else◌,
}
use bankstmt_analyzer.Text.{Bytes, codes}
use bankstmt_analyzer.Db.{Date}

abbrev pub Month : Type 0
Month = ℕ

abbrev pub month_of : ℕ → ℕ → Month
month_of year month = (year + 1) * 12 + (month - 1)

-- `date_trunc('month', d)`
abbrev pub date_trunc : Date → Month
date_trunc d = month_of d.year d.month

-- A day that is a bound of a window.
pub record Day : Type 0 where
  pub in_month : Month
  pub day : ℕ

-- `a <= b`
abbrev pub day_le : Day → Day → Bool
day_le a b = ltb a.in_month b.in_month || a.in_month == b.in_month && leb a.day b.day

abbrev pub day_of : Date → Day
day_of d = record { in_month = date_trunc d; day = d.day }

-- A number below 100 in two digits, and one below 10000 in four.
abbrev two_digits : ℕ → Bytes
two_digits n = (b'0' + n / 10) ∷ (b'0' + n % 10) ∷ []

abbrev four_digits : ℕ → Bytes
four_digits n =
    (b'0' + n / 1000) ∷ (b'0' + n / 100 % 10) ∷ (b'0' + n / 10 % 10) ∷ (b'0' + n % 10) ∷ []

-- `Format("2006-01-02")`
abbrev pub print_date : Date → Bytes
print_date d = four_digits d.year ++ (b'-' ∷ (two_digits d.month ++ (b'-' ∷ two_digits d.day)))

-- `Format("2006-01")`
unfoldable pub print_month : Month → Bytes
print_month m =
    let year = if ltb m 12 then codes "-0001" else four_digits (m / 12 - 1) in
    year ++ (b'-' ∷ two_digits (m % 12 + 1))

-- `to_char(date_trunc('month', d), 'YYYY-MM')`, where year 0 is the year 1 before the era: it is printed as 1.
unfoldable pub to_char : Date → Bytes
to_char d = four_digits (if d.year == 0 then 1 else d.year) ++ (b'-' ∷ two_digits d.month)
