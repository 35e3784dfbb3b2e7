-- ===== src/Text/Base64.antt =====
-- `base64.StdEncoding.EncodeToString`
use bankstmt_analyzer.Prelude.{ℕ, ◌+◌, ◌-◌, ◌*◌, ◌/◌, ◌%◌, [], ◌∷◌, ◌==◌, ltb, if◌then◌else◌}
use bankstmt_analyzer.Text.{Bytes}

-- The sign for six bits
unfoldable pub sign : ℕ → ℕ
sign n =
    if ltb n 26
    then b'A' + n
    else if ltb n 52
    then b'a' + (n - 26)
    else if ltb n 62
    then b'0' + (n - 52)
    else if n == 62
    then b'+'
    else b'/'

unfoldable pub encode_base64 : Bytes → Bytes
unfolding sign
encode_base64 [] = []
encode_base64 (a ∷ []) = sign (a / 4) ∷ sign (a % 4 * 16) ∷ b'=' ∷ b'=' ∷ []
encode_base64 (a ∷ b ∷ []) =
    sign (a / 4) ∷ sign (a % 4 * 16 + b / 16) ∷ sign (b % 16 * 4) ∷ b'=' ∷ []
encode_base64 (a ∷ b ∷ c ∷ s) =
    sign (a / 4)
    ∷ sign (a % 4 * 16 + b / 16)
    ∷ sign (b % 16 * 4 + c / 64)
    ∷ sign (c % 64)
    ∷ encode_base64 s
