-- ===== src/Tests/Pipeline.antt =====
-- Concrete runs of internal/pipeline and internal/llm.
use bankstmt_analyzer.Prelude.{
  ℕ, suc, ◌+◌, ◌<◌, ◌≡◌, ◌≤◌, refl, arith, true, false, some, none, List, [], ◌∷◌, ◌++◌, length,
  All, take,
}
use mathlib.Core.List.{flatten}
use bankstmt_analyzer.Text.{Bytes, codes, contains, join}
use bankstmt_analyzer.Go.{Result, ok}
use bankstmt_analyzer.Db.{debit, Numeric, CreateTransactionsParams}
use bankstmt_analyzer.Llm
use bankstmt_analyzer.Llm.{Statement}
use bankstmt_analyzer.Llm.Reply.{build_user_message}
use bankstmt_analyzer.Text.Decimal.{print_decimal}
use bankstmt_analyzer.Llm.Reply.Layout.{build_user_message-eq}
use bankstmt_analyzer.Pipeline.Scrub.{rune_start, new_scrubber, clean, message, truncate, ellipsis}
use bankstmt_analyzer.Pipeline.Scrub.Hides.{IsHideable}
use bankstmt_analyzer.Pipeline.Scrub.Lines.{InLine, message_bounds}
use bankstmt_analyzer.Pipeline.Scrub.Truncate.{IsRune, truncate-runes}
use bankstmt_analyzer.Pipeline.Convert.{days_in, parse_date}
use bankstmt_analyzer.Db.Months.{print_date}
use bankstmt_analyzer.Pipeline.Convert.Dates.{IsCalendar, parse_date-print_date}

abbrev pub secret : Bytes
secret = codes "sk-12345678"

abbrev pub secrets : List Bytes
secrets = codes "short" ∷ secret ∷ []

abbrev pub leaky : Bytes
leaky = codes "401: bad key\n sk-12345678 given"

pub secret-IsHideable : IsHideable secret
unfolding contains
secret-IsHideable = record {
  no_left = omega arith;
  no_right = omega arith;
  no_space = omega arith;
  not_redacted = refl;
  no_dot = refl;
}

message_bounds_example :
    (length (message (new_scrubber secrets) (some leaky)) ≤ 400)
    × All InLine (message (new_scrubber secrets) (some leaky))
message_bounds_example = message_bounds (new_scrubber secrets) (some leaky)

-- A euro sign takes three bytes.
abbrev euros : List Bytes
euros = (0xe2 ∷ 0x82 ∷ 0xac ∷ []) ∷ (0xe2 ∷ 0x82 ∷ 0xac ∷ []) ∷ (0xe2 ∷ 0x82 ∷ 0xac ∷ []) ∷ []

euros-IsRune : All IsRune euros
unfolding rune_start
euros-IsRune =
    ((refl, (refl, (refl, tt))), ((refl, (refl, (refl, tt))), ((refl, (refl, (refl, tt))), tt)))

truncate-runes_example :
    (n : ℕ) × (truncate (flatten euros) 8 ≡ flatten (take n euros) ++ ellipsis)
    × (length (flatten (take n euros)) + 3 ≤ 8)
    × (8 < length (flatten (take (suc n) euros)) + 3)
unfolding flatten
truncate-runes_example = truncate-runes euros 8 euros-IsRune (omega arith) (omega arith)

cuts_behind_rune : truncate (flatten euros) 8 ≡ (0xe2 ∷ 0x82 ∷ 0xac ∷ codes "...")
unfolding truncate flatten
cuts_behind_rune = refl

leap_day-IsCalendar : IsCalendar (record { year = 2024; month = 2; day = 29 })
unfolding days_in
leap_day-IsCalendar = record {
  year = omega arith;
  month = (omega arith, omega arith);
  day = (omega arith, omega arith);
}

parse_date-print_date_example :
    parse_date (print_date (record { year = 2024; month = 2; day = 29 }))
    ≡ some (record { year = 2024; month = 2; day = 29 })
parse_date-print_date_example =
    parse_date-print_date (record { year = 2024; month = 2; day = 29 }) leap_day-IsCalendar

no_leap_day : parse_date (codes "2023-02-29") ≡ none
unfolding parse_date
no_leap_day = refl

abbrev pub scan : Bytes → Result Numeric
scan s = ok (record { negative = false; cents = length s })

abbrev pub paid : Llm.Transaction
paid = record {
  date = codes " 2024-02-29";
  description = codes "Rent ";
  counterparty = codes "Landlord";
  amount = codes "-950.00";
  direction = codes "transfer";
  balance_after = none;
  category = codes "housing";
  essential = true;
  recurring = true;
}

abbrev paid_row : CreateTransactionsParams
paid_row = record {
  analysis_id = 0;
  txn_date = record { year = 2024; month = 2; day = 29 };
  description = codes "Rent";
  counterparty = codes "Landlord";
  amount = record { negative = false; cents = 6 };
  direction = debit;
  balance_after = none;
  category = codes "housing";
  essential = true;
  recurring = true;
}

abbrev two_statements : List Statement
two_statements =
    record { filename = codes "a"; markdown = codes "A" }
    ∷ record { filename = codes "b"; markdown = codes "B" }
    ∷ []

build_user_message-eq_example :
    build_user_message two_statements ≡ codes "--- STATEMENT 1 ---\nA\n\n--- STATEMENT 2 ---\nB"
unfolding print_decimal join
build_user_message-eq_example = build_user_message-eq two_statements

-- A secret with a space that the message breaks over two lines is put together again.
joined_secret :
    clean (new_scrubber (codes "host=db password=pw" ∷ [])) (codes "host=db\npassword=pw")
    ≡ codes "host=db password=pw"
unfolding clean new_scrubber
joined_secret = refl
