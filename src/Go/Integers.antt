-- ===== src/Go/Integers.antt =====
-- `int`, `int64` and `time.Duration` where the program takes any value from outside.
use bankstmt_analyzer.Prelude.{ℕ, Bool, true, ltb, ◌+◌, ◌∷◌}
use bankstmt_analyzer.Text.{Bytes}
use bankstmt_analyzer.Text.Decimal.{print_decimal}

-- `negsuc n` is - (n + 1).
pub data ℤ : Type 0 where
  pos negsuc : ℕ → ℤ

-- `z < n`
abbrev pub below : ℤ → ℕ → Bool
below (pos m) n = ltb m n
below (negsuc m) n = true

-- `%d`
unfoldable pub print_int : ℤ → Bytes
unfolding print_decimal
print_int (pos n) = print_decimal n
print_int (negsuc n) = b'-' ∷ print_decimal (n + 1)
