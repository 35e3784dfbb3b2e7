-- ===== src/Text/Escape.antt =====
-- `url.PathEscape` and `url.QueryEscape`.
use bankstmt_analyzer.Prelude.{
  ℕ, ◌+◌, ◌-◌, ◌/◌, ◌%◌, Bool, ◌||◌, ◌&&◌, [], ◌∷◌, ◌++◌, ◌==◌, leb, ltb, if◌then◌else◌,
}
use bankstmt_analyzer.Text.{Bytes}

-- The letters, the digits and `-_.~`
abbrev pub is_unreserved : ℕ → Bool
is_unreserved c =
    leb b'a' c && leb c b'z'
    || leb b'A' c && leb c b'Z'
    || leb b'0' c && leb c b'9'
    || c == b'-'
    || c == b'_'
    || c == b'.'
    || c == b'~'

-- The bytes that a segment of a path keeps besides: `$&+=:@`
abbrev pub is_segment_sign : ℕ → Bool
is_segment_sign c = c == b'$' || c == b'&' || c == b'+' || c == b'=' || c == b':' || c == b'@'

-- A hexadecimal digit
abbrev pub hex_digit : ℕ → ℕ
hex_digit n = if ltb n 10 then b'0' + n else b'A' + (n - 10)

abbrev pub escaped : ℕ → Bytes
escaped c = b'%' ∷ hex_digit (c / 16) ∷ hex_digit (c % 16) ∷ []

unfoldable pub path_escape : Bytes → Bytes
path_escape [] = []
path_escape (c ∷ s) =
    (if is_unreserved c || is_segment_sign c then c ∷ [] else escaped c) ++ path_escape s

unfoldable pub query_escape : Bytes → Bytes
query_escape [] = []
query_escape (c ∷ s) =
    (if is_unreserved c then c ∷ [] else if c == b' ' then b'+' ∷ [] else escaped c)
    ++ query_escape s
