-- ===== src/Pipeline/Convert/Dates.antt =====
-- The dates that `time.Parse("2006-01-02", …)` reads in internal/pipeline/convert.go.
use bankstmt_analyzer.Prelude.{
  ℕ, ◌+◌, ◌*◌, ◌/◌, ◌%◌, ◌≤◌, ◌<◌, ◌≡◌, refl, ap, ap₂, ◌∙◌, true, some, [], ◌∷◌, arith,
}
use bankstmt_analyzer.Db.{Date}
use bankstmt_analyzer.Db.Months.{print_date}
use bankstmt_analyzer.Pipeline.Convert.{is_digit, digit, days_in, check_date, parse_date}

-- A day of the calendar, in a year of four digits.
pub record IsCalendar (d : Date) : Type 0 where
  pub year : d.year ≤ 9999
  pub month : (1 ≤ d.month) × (d.month ≤ 12)
  pub day : (1 ≤ d.day) × (d.day ≤ days_in d.year d.month)

days_in-le : (y m : ℕ) → days_in y m ≤ 31
unfolding days_in
days_in-le y m = ground arith

is_digit-eq : (n : ℕ) → n < 10 → is_digit (b'0' + n) ≡ true
is_digit-eq n h = ground arith

digit-eq : (n : ℕ) → digit (b'0' + n) ≡ n
digit-eq n = omega arith

check_date-eq : (d : Date) → IsCalendar d → check_date d.year d.month d.day ≡ some d
unfolding check_date
check_date-eq d h = ground arith

digits_date :
    (a b c d e f i j : ℕ)
    → a < 10
    → b < 10
    → c < 10
    → d < 10
    → e < 10
    → f < 10
    → i < 10
    → j < 10
    → parse_date (
        (b'0' + a)
        ∷ (b'0' + b)
        ∷ (b'0' + c)
        ∷ (b'0' + d)
        ∷ b'-'
        ∷ (b'0' + e)
        ∷ (b'0' + f)
        ∷ b'-'
        ∷ (b'0' + i)
        ∷ (b'0' + j)
        ∷ [])
      ≡ check_date (a * 1000 + b * 100 + c * 10 + d) (e * 10 + f) (i * 10 + j)
unfolding parse_date
digits_date a b c d e f i j ha hb hc hd he hf hi hj =
    rw
      (
        is_digit-eq a ha,
        is_digit-eq b hb,
        is_digit-eq c hc,
        is_digit-eq d hd,
        is_digit-eq e he,
        is_digit-eq f hf,
        is_digit-eq i hi,
        is_digit-eq j hj,
        digit-eq a,
        digit-eq b,
        digit-eq c,
        digit-eq d,
        digit-eq e,
        digit-eq f,
        digit-eq i,
        digit-eq j,
      )
      refl

-- Every day of the calendar, in a year of at most four digits, is read from its text YYYY-MM-DD.
pub parse_date-print_date : (d : Date) → IsCalendar d → parse_date (print_date d) ≡ some d
parse_date-print_date d h =
    digits_date (d.year / 1000) (d.year / 100 % 10) (d.year / 10 % 10) (d.year % 10) (d.month / 10)
      (d.month % 10) (d.day / 10) (d.day % 10) (omega (arith, h.year)) (omega arith) (omega arith)
      (omega arith) (omega (arith, h.month)) (omega arith)
      (omega (arith, h.day, days_in-le d.year d.month)) (omega arith)
    ∙ ap₂ (λ y k. check_date y k (d.day / 10 * 10 + d.day % 10)) (omega arith) (omega arith)
    ∙ ap (check_date d.year d.month) (omega arith)
    ∙ check_date-eq d h
