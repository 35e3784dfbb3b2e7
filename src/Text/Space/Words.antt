-- ===== src/Text/Space/Words.antt =====
-- The words of `strings.Fields`: parts of the text, with no ASCII white space.
use bankstmt_analyzer.Prelude.{
  ℕ, zero, suc, ◌≡◌, refl, ◌⊎◌, inl, inr, false, List, [], ◌∷◌, ◌++◌, append_assoc, arith, All,
  All-append,
}
use bankstmt_analyzer.Text.{Bytes, contains}
use bankstmt_analyzer.Text.Search.{contains-append_left, contains-append_right}
use bankstmt_analyzer.Text.Space.{is_ascii_space, space_width, emit, fields_from, fields}

emit-All {ℓ} :
    (P : Bytes → Type ℓ) (word : Bytes) (ws : List Bytes) → P word → All P ws → All P (emit word ws)
emit-All P [] ws p h = h
emit-All P (c ∷ word) ws p h = (p, h)

ℕ-cases : (n : ℕ) → (n ≡ zero) ⊎ ((m : ℕ) × (n ≡ suc m))
ℕ-cases zero = inl refl
ℕ-cases (suc m) = inr (m, refl)

module _ (k : Bytes) where
  -- While bytes of a white space rune are passed over, the word is empty.
  abbrev Lost : ℕ → Bytes → Bytes → Type 0
  Lost zero word s = contains (word ++ s) k ≡ false
  Lost (suc n) word s = (word ≡ []) × (contains s k ≡ false)

  Lost-nil : (n : ℕ) (s : Bytes) → contains s k ≡ false → Lost n [] s
  Lost-nil zero s h = h
  Lost-nil (suc n) s h = (refl, h)

  fields_from-contains :
      (n : ℕ) (word s : Bytes)
      → Lost n word s
      → All (λ w. contains w k ≡ false) (fields_from n word s)
  unfolding fields_from
  fields_from-contains zero word [] h = emit-All _ word [] (contains-append_left word [] k h) tt
  fields_from-contains (suc n) word [] h = rw h.0 tt
  fields_from-contains (suc n) word (c ∷ s) h =
      rw h.0 (fields_from-contains n [] s (Lost-nil n s (contains-append_right (c ∷ []) s k h.1)))
  fields_from-contains zero word (c ∷ s) h = elim (ℕ-cases (space_width (c ∷ s))) [
    | inl e ↦ rw (e, fields_from) (fields_from-contains zero (word ++ c ∷ []) s (rw append_assoc h))
    | inr (n, e) ↦
        rw (e, fields_from)
          (emit-All _ word _ (contains-append_left word (c ∷ s) k h) (
            fields_from-contains n [] s (
              Lost-nil n s
                (contains-append_right (c ∷ []) s k (contains-append_right word (c ∷ s) k h)))))
  ]

-- What does not occur in a text occurs in none of its words.
pub fields-contains :
    (k s : Bytes) → contains s k ≡ false → All (λ w. contains w k ≡ false) (fields s)
unfolding fields
fields-contains k s h = fields_from-contains k 0 [] s h

-- A byte that stands in a word.
abbrev pub IsInk : ℕ → Type 0
IsInk c = is_ascii_space c ≡ false

space_width-zero : (c : ℕ) (s : Bytes) → space_width (c ∷ s) ≡ 0 → IsInk c
unfolding space_width
space_width-zero c [] h = ground arith
space_width-zero c (d ∷ []) h = ground arith
space_width-zero c (d ∷ e ∷ s) h = ground arith

fields_from-IsInk :
    (n : ℕ) (word s : Bytes) → All IsInk word → All (All IsInk) (fields_from n word s)
unfolding fields_from
fields_from-IsInk zero word [] h = emit-All _ word [] h tt
fields_from-IsInk (suc n) word [] h = emit-All _ word [] h tt
fields_from-IsInk (suc n) word (c ∷ s) h = fields_from-IsInk n word s h
fields_from-IsInk zero word (c ∷ s) h = elim (ℕ-cases (space_width (c ∷ s))) [
  | inl e ↦
      rw (e, fields_from)
        (fields_from-IsInk zero (word ++ c ∷ []) s
          (All-append IsInk word (c ∷ []) h (space_width-zero c s e, tt)))
  | inr (n, e) ↦ rw (e, fields_from) (emit-All _ word _ h (fields_from-IsInk n [] s tt))
]

-- No word holds a byte of ASCII white space.
pub fields-IsInk : (s : Bytes) → All (All IsInk) (fields s)
unfolding fields
fields-IsInk s = fields_from-IsInk 0 [] s tt
