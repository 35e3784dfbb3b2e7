-- ===== src/Text/Space.antt =====
-- `strings.TrimSpace` and `strings.Fields`: the white space of Unicode, which is more than ASCII's.
pub mod Words
pub mod Plain
use mathlib.Core.List.{reverse}
use bankstmt_analyzer.Prelude.{
  ℕ, zero, suc, Bool, ◌&&◌, ◌||◌, List, [], ◌∷◌, ◌++◌, ◌==◌, leb, if◌then◌else◌,
}

-- `\t \n \v \f \r` and the space
abbrev pub is_ascii_space : ℕ → Bool
is_ascii_space c = c == 0x20 || leb 0x09 c && leb c 0x0d

-- U+0085 and U+00A0
abbrev is_space2 : ℕ → ℕ → Bool
is_space2 c d = c == 0xc2 && (d == 0x85 || d == 0xa0)

-- U+1680, U+2000 to U+200A, U+2028, U+2029, U+202F, U+205F and U+3000
abbrev is_space3 : ℕ → ℕ → ℕ → Bool
is_space3 c d e =
    c == 0xe1 && d == 0x9a && e == 0x80
    || c == 0xe2 && d == 0x80 && (leb 0x80 e && leb e 0x8a || e == 0xa8 || e == 0xa9 || e == 0xaf)
    || c == 0xe2 && d == 0x81 && e == 0x9f
    || c == 0xe3 && d == 0x80 && e == 0x80

-- The bytes of the white space rune that the text begins with, 0 if it begins with none.
space_width : List ℕ → ℕ
space_width [] = 0
space_width (c ∷ []) = if is_ascii_space c then 1 else 0
space_width (c ∷ d ∷ []) = if is_ascii_space c then 1 else if is_space2 c d then 2 else 0
space_width (c ∷ d ∷ e ∷ s) =
    if is_ascii_space c then 1 else if is_space2 c d then 2 else if is_space3 c d e then 3 else 0

-- The same at the end of a text that is given backwards.
last_space_width : List ℕ → ℕ
last_space_width [] = 0
last_space_width (c ∷ []) = if is_ascii_space c then 1 else 0
last_space_width (d ∷ c ∷ []) = if is_ascii_space d then 1 else if is_space2 c d then 2 else 0
last_space_width (e ∷ d ∷ c ∷ s) =
    if is_ascii_space e then 1 else if is_space2 d e then 2 else if is_space3 c d e then 3 else 0

-- Passes over the rest of a rune, then over white space as `width` measures it.
skip_spaces : (List ℕ → ℕ) → ℕ → List ℕ → List ℕ
skip_spaces width n [] = []
skip_spaces width (suc n) (c ∷ s) = skip_spaces width n s
skip_spaces width zero (c ∷ s) = elim (width (c ∷ s)) [
  | zero ↦ c ∷ s
  | suc n ↦ skip_spaces width n s
]

-- `strings.TrimSpace`
unfoldable pub trim_space : List ℕ → List ℕ
unfolding skip_spaces space_width last_space_width
trim_space s = reverse (skip_spaces last_space_width 0 (reverse (skip_spaces space_width 0 s)))

-- A word joins the list of words unless it is empty.
abbrev emit : List ℕ → List (List ℕ) → List (List ℕ)
emit [] words = words
emit (c ∷ w) words = (c ∷ w) ∷ words

-- The loop of `strings.Fields`: bytes left of a white space rune, the word so far, the rest.
fields_from : ℕ → List ℕ → List ℕ → List (List ℕ)
unfolding space_width
fields_from n word [] = emit word []
fields_from (suc n) word (c ∷ s) = fields_from n word s
fields_from zero word (c ∷ s) = elim (space_width (c ∷ s)) [
  | zero ↦ fields_from zero (word ++ c ∷ []) s
  | suc n ↦ emit word (fields_from n [] s)
]

-- `strings.Fields`
unfoldable pub fields : List ℕ → List (List ℕ)
unfolding fields_from
fields s = fields_from 0 [] s
