-- ===== src/Text/Decimal.antt =====
-- Numbers in text: the `%d` of `fmt`.
use bankstmt_analyzer.Prelude.{ℕ, zero, suc, ◌+◌, ◌/◌, ◌%◌, [], ◌∷◌, ◌==◌, if◌then◌else◌}
use bankstmt_analyzer.Text.{Bytes}

-- `%d`: the digits of a number below `fuel`, which is enough.
digits_from : ℕ → ℕ → Bytes → Bytes
digits_from zero n out = out
digits_from (suc fuel) n out =
    let out' : Bytes = (b'0' + n % 10) ∷ out in
    let rest = digits_from fuel (n / 10) out' in if n / 10 == 0 then out' else rest

unfoldable pub print_decimal : ℕ → Bytes
unfolding digits_from
print_decimal n = digits_from (n + 1) n []
