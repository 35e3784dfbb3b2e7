-- ===== src/Text.antt =====
-- Go strings as their bytes, and the functions of `strings`, `bytes` and `unicode/utf8` that the
-- program calls. A white space rune is recognised by its UTF-8 bytes: no other rune, valid or not,
-- contains such a sequence, since each begins with a byte that starts a rune.
pub mod Base64
pub mod Decimal
pub mod Equal
pub mod Escape
pub mod Path
pub mod Space
pub mod Search
pub mod Trim
use Prim.Native.Char.{code}
use Prim.Native.String.{String}
use bankstmt_analyzer.Prelude.{
  ℕ, zero, suc, ◌+◌, ◌-◌, Bool, true, false, ◌&&◌, ◌||◌, List, [], ◌∷◌, ◌++◌, ◌==◌, leb, length,
  if◌then◌else◌,
}

abbrev pub Bytes : Type 0
Bytes = List ℕ

-- The bytes of an ASCII literal. `String` has its own `[]` and `∷`.
abbrev pub codes : String → Bytes
codes String.[] = []
codes (String.◌∷◌ c s) = code c ∷ codes s

-- `a == b` on strings
unfoldable pub bytes_eq : Bytes → Bytes → Bool
bytes_eq [] [] = true
bytes_eq [] (b ∷ t) = false
bytes_eq (a ∷ s) [] = false
bytes_eq (a ∷ s) (b ∷ t) = a == b && bytes_eq s t

-- `s == ""`
abbrev pub is_empty : Bytes → Bool
is_empty [] = true
is_empty (c ∷ s) = false

-- `strings.HasPrefix(s, prefix)`
unfoldable pub has_prefix : Bytes → Bytes → Bool
has_prefix s [] = true
has_prefix [] (p ∷ ps) = false
has_prefix (c ∷ s) (p ∷ ps) = c == p && has_prefix s ps

-- `strings.Contains(s, sub)`
unfoldable pub contains : Bytes → Bytes → Bool
unfolding has_prefix
contains [] sub = has_prefix [] sub
contains (c ∷ s) sub = has_prefix (c ∷ s) sub || contains s sub

-- `strings.Join(parts, sep)`
unfoldable pub join : List Bytes → Bytes → Bytes
join [] sep = []
join (p ∷ []) sep = p
join (p ∷ q ∷ ps) sep = p ++ (sep ++ join (q ∷ ps) sep)

-- The Unicode letters that `strings.ToLower` maps into ASCII are İ (to i) and the Kelvin sign (to k).
-- Letters that it maps outside ASCII stay as they are: its results are only compared with ASCII texts.
unfoldable pub to_lower : Bytes → Bytes
to_lower [] = []
to_lower (c ∷ d ∷ e ∷ s) =
    let three = b'k' ∷ to_lower s in
    let two = b'i' ∷ to_lower (e ∷ s) in
    let one = (if leb b'A' c && leb c b'Z' then c + 32 else c) ∷ to_lower (d ∷ e ∷ s) in
    if c == 0xe2 && d == 0x84 && e == 0xaa
    then three
    else if c == 0xc4 && d == 0xb0
    then two
    else one
to_lower (c ∷ d ∷ []) =
    let two = b'i' ∷ [] in
    let one = (if leb b'A' c && leb c b'Z' then c + 32 else c) ∷ to_lower (d ∷ []) in
    if c == 0xc4 && d == 0xb0 then two else one
to_lower (c ∷ []) = (if leb b'A' c && leb c b'Z' then c + 32 else c) ∷ []

-- The loop of `strings.ReplaceAll`: the bytes of a match that are still to be passed over, the rest.
unfoldable pub replace_from : Bytes → Bytes → ℕ → Bytes → Bytes
unfolding has_prefix
replace_from old new n [] = []
replace_from old new (suc n) (c ∷ s) = replace_from old new n s
replace_from old new zero (c ∷ s) = elim (has_prefix (c ∷ s) old) [
  | true ↦ new ++ replace_from old new (length old - 1) s
  | false ↦ c ∷ replace_from old new zero s
]

-- `strings.ReplaceAll(s, old, new)` for a text `old` that is not empty.
unfoldable pub replace_all : Bytes → Bytes → Bytes → Bytes
unfolding replace_from
replace_all s old new = replace_from old new 0 s

-- `%q`, less its escapes.
abbrev pub quote : Bytes → Bytes
quote s = b'"' ∷ (s ++ b'"' ∷ [])
