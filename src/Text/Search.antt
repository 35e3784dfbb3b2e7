-- ===== src/Text/Search.antt =====
-- Where a text occurs in a text that was put together from others, or had parts replaced.
use mathlib.Core.List.{cons-ne-nil}
use bankstmt_analyzer.Prelude.{
  ℕ, zero, suc, ◌≡◌, refl, ◌≢◌, ◌⊎◌, inl, inr, Bool, true, false, ◌||◌, List, [], ◌∷◌, ◌++◌,
  append_assoc, arith, replicate, ◌==◌, All, Bool-cases,
}
use bankstmt_analyzer.Text.{Bytes, has_prefix, contains, join, replace_from}

-- No byte of the text is `b`.
abbrev pub Lacks : ℕ → Bytes → Type 0
Lacks b = All (λ c. c ≢ b)

has_prefix-append_sep :
    (b : ℕ) (u v k : Bytes) → Lacks b k → has_prefix (u ++ b ∷ v) k ≡ has_prefix u k
unfolding has_prefix
has_prefix-append_sep b [] v [] h = refl
has_prefix-append_sep b [] v (p ∷ k) h = ground arith
has_prefix-append_sep b (c ∷ u) v [] h = refl
has_prefix-append_sep b (c ∷ u) v (p ∷ k) h = ground (arith, has_prefix-append_sep b u v k h.1)

contains-nil : (k : Bytes) → k ≢ [] → contains [] k ≡ false
unfolding contains
contains-nil [] h = absurd (h refl)
contains-nil (c ∷ k) h = refl

-- An occurrence of a text without the byte `b` lies on one side of it.
pub contains-append_sep :
    (b : ℕ) (u v k : Bytes)
    → Lacks b k
    → k ≢ []
    → contains (u ++ b ∷ v) k ≡ (contains u k || contains v k)
unfolding contains
contains-append_sep b [] v k h ne =
    ground (arith, has_prefix-append_sep b [] v k h, contains-nil k ne)
contains-append_sep b (c ∷ u) v k h ne =
    ground (arith, has_prefix-append_sep b (c ∷ u) v k h, contains-append_sep b u v k h ne)

-- A match at the front of the replaced text, if it cannot begin in a replacement, was there before.
has_prefix-replace_from :
    (left : ℕ) (w old s k : Bytes)
    → Lacks left k
    → has_prefix (replace_from old (left ∷ w) 0 s) k ≡ true
    → has_prefix s k ≡ true
unfolding replace_from
has_prefix-replace_from left w old s [] _ h = refl
has_prefix-replace_from left w old [] (p ∷ k) _ h = h
has_prefix-replace_from left w old (c ∷ s) (p ∷ k) lacks h =
    ground (arith, has_prefix-replace_from left w old s k lacks.1)

-- Joining by one byte brings in no occurrence of a text without it.
pub contains-join :
    (b : ℕ) (k : Bytes) (ws : List Bytes)
    → Lacks b k
    → k ≢ []
    → All (λ w. contains w k ≡ false) ws
    → contains (join ws (b ∷ [])) k ≡ false
unfolding join
contains-join b k [] lacks ne h = contains-nil k ne
contains-join b k (w ∷ []) lacks ne h = h.0
contains-join b k (w ∷ v ∷ ws) lacks ne h =
    rw (contains-append_sep b w (join (v ∷ ws) (b ∷ [])) k lacks ne, h.0)
      (contains-join b k (v ∷ ws) lacks ne h.1)

-- The text that replaces others is `left`, `mid`, `right`, where `k` holds neither mark.
module _ (left right : ℕ) (mid k : Bytes) (no_left : Lacks left k) (no_right : Lacks right k)
    (no_mid : contains mid k ≡ false) (ne : k ≢ []) where
  abbrev pub mark : Bytes
  mark = left ∷ (mid ++ right ∷ [])

  contains-mark : (rest : Bytes) → contains (mark ++ rest) k ≡ contains rest k
  contains-mark rest = rw (
    append_assoc mid (right ∷ []) rest,
    contains-append_sep left [] _ k no_left ne,
    contains-append_sep right mid rest k no_right ne,
    no_mid,
    contains-nil k ne,
  )

  -- Replacing any text by the mark brings in no occurrence of `k`, and removes all if `k` is replaced.
  pub contains-replace_from :
      (old : Bytes) (n : ℕ) (s : Bytes)
      → (contains s k ≡ false) ⊎ (old ≡ k)
      → contains (replace_from old mark n s) k ≡ false
  unfolding contains replace_from
  contains-replace_from old n [] h = contains-nil k ne
  contains-replace_from old (suc n) (c ∷ s) h = contains-replace_from old n s (ground arith)
  contains-replace_from old zero (c ∷ s) h = elim (Bool-cases (has_prefix (c ∷ s) old)) [
    | inl found ↦
        rw (found, replace_from) (rw contains-mark (contains-replace_from old _ s (ground arith)))
    | inr other ↦ ground (
      arith,
      contains-replace_from old zero s,
      has_prefix-replace_from left (mid ++ right ∷ []) old (c ∷ s) k no_left,
    )
  ]

has_prefix-append_left : (u v k : Bytes) → has_prefix (u ++ v) k ≡ false → has_prefix u k ≡ false
unfolding has_prefix
has_prefix-append_left u v [] h = cc
has_prefix-append_left [] v (p ∷ k) h = refl
has_prefix-append_left (c ∷ u) v (p ∷ k) h = ground (arith, has_prefix-append_left u v k)

-- What does not occur in a text does not occur in a part of it.
pub contains-append_left : (u v k : Bytes) → contains (u ++ v) k ≡ false → contains u k ≡ false
unfolding contains
contains-append_left [] [] [] h = h
contains-append_left [] (c ∷ v) [] h = cc
contains-append_left [] [] (p ∷ k) h = refl
contains-append_left [] (c ∷ v) (p ∷ k) h = refl
contains-append_left (c ∷ u) v k h =
    ground (arith, has_prefix-append_left (c ∷ u) v k, contains-append_left u v k)

pub contains-append_right : (u v k : Bytes) → contains (u ++ v) k ≡ false → contains v k ≡ false
unfolding contains
contains-append_right [] v k h = h
contains-append_right (c ∷ u) v k h = ground (arith, contains-append_right u v k)

-- The last byte of the text is `b`.
abbrev pub ends_with : ℕ → Bytes → Bool
ends_with b [] = false
ends_with b (c ∷ []) = c == b
ends_with b (c ∷ d ∷ s) = ends_with b (d ∷ s)

has_prefix-replicate :
    (b : ℕ) (n : ℕ) (k : Bytes)
    → k ≢ []
    → ends_with b k ≡ false
    → has_prefix (replicate n b) k ≡ false
unfolding has_prefix
has_prefix-replicate b n [] ne h = absurd (ne refl)
has_prefix-replicate b zero (p ∷ k) ne h = refl
has_prefix-replicate b (suc n) (p ∷ []) ne h = ground arith
has_prefix-replicate b (suc n) (p ∷ q ∷ k) ne h =
    ground (arith, has_prefix-replicate b n (q ∷ k) (cons-ne-nil _ _) h)

has_prefix-append_replicate :
    (b n : ℕ) (u k : Bytes)
    → ends_with b k ≡ false
    → has_prefix (u ++ replicate n b) k ≡ true
    → has_prefix u k ≡ true
unfolding has_prefix
has_prefix-append_replicate b n u [] e h = refl
has_prefix-append_replicate b n [] (p ∷ k) e h =
    cc (has_prefix-replicate b n (p ∷ k) (cons-ne-nil _ _) e)
has_prefix-append_replicate b n (c ∷ u) (p ∷ []) e h =
    ground (arith, has_prefix-append_replicate b n u [])
has_prefix-append_replicate b n (c ∷ u) (p ∷ q ∷ k) e h =
    ground (arith, has_prefix-append_replicate b n u (q ∷ k) e)

-- Repeating a byte behind a text brings in no occurrence of a text that ends otherwise.
pub contains-append_replicate :
    (b n : ℕ) (u k : Bytes)
    → k ≢ []
    → ends_with b k ≡ false
    → contains u k ≡ false
    → contains (u ++ replicate n b) k ≡ false
unfolding contains
contains-append_replicate b zero [] k ne e h = h
contains-append_replicate b (suc n) [] k ne e h =
    ground (arith, has_prefix-replicate b (suc n) k ne e, contains-append_replicate b n [] k ne e h)
contains-append_replicate b n (c ∷ u) k ne e h =
    ground
      (arith, has_prefix-append_replicate b n (c ∷ u) k e, contains-append_replicate b n u k ne e)
