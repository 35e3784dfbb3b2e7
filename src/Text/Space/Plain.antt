-- ===== src/Text/Space/Plain.antt =====
-- `strings.TrimSpace` leaves a text of visible ASCII bytes as it is.
use mathlib.Core.List.{reverse, reverse_aux, reverse-reverse}
use bankstmt_analyzer.Prelude.{ℕ, ◌<◌, ◌≡◌, refl, ap, ◌∙◌, false, List, [], ◌∷◌, arith, All}
use bankstmt_analyzer.Text.Space.{
  is_ascii_space, space_width, last_space_width, skip_spaces, trim_space,
}

-- A byte that is ASCII, and no white space.
abbrev pub IsPlain : ℕ → Type 0
IsPlain c = (c < 0x80) × (is_ascii_space c ≡ false)

reverse_aux-All :
    (P : ℕ → Type 0) (xs ys : List ℕ) → All P xs → All P ys → All P (reverse_aux xs ys)
reverse_aux-All P [] ys h k = k
reverse_aux-All P (x ∷ xs) ys h k = reverse_aux-All P xs (x ∷ ys) h.1 (h.0, k)

space_width-plain : (s : List ℕ) → All IsPlain s → space_width s ≡ 0
unfolding space_width
space_width-plain [] h = refl
space_width-plain (c ∷ []) h = ground arith
space_width-plain (c ∷ d ∷ []) h = ground arith
space_width-plain (c ∷ d ∷ e ∷ s) h = ground arith

last_space_width-plain : (s : List ℕ) → All IsPlain s → last_space_width s ≡ 0
unfolding last_space_width
last_space_width-plain [] h = refl
last_space_width-plain (c ∷ []) h = ground arith
last_space_width-plain (c ∷ d ∷ []) h = ground arith
last_space_width-plain (c ∷ d ∷ e ∷ s) h = ground arith

skip_spaces-none : (width : List ℕ → ℕ) (s : List ℕ) → width s ≡ 0 → skip_spaces width 0 s ≡ s
unfolding skip_spaces
skip_spaces-none width [] h = refl
skip_spaces-none width (c ∷ s) h = rw (skip_spaces, h) refl

pub trim_space-plain : (s : List ℕ) → All IsPlain s → trim_space s ≡ s
unfolding trim_space
trim_space-plain s h =
    ap (λ t. reverse (skip_spaces last_space_width 0 (reverse t)))
      (skip_spaces-none space_width s (space_width-plain s h))
    ∙ (ap reverse (
          skip_spaces-none last_space_width (reverse s)
            (last_space_width-plain (reverse s) (reverse_aux-All IsPlain s [] h tt)))
        ∙ reverse-reverse s)
