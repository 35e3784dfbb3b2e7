-- ===== src/Pipeline/Scrub/Truncate.antt =====
-- The cut of `truncate` (internal/pipeline/scrub.go): how long the result is, and where it ends.
use mathlib.Core.List.{flatten}
use native.Mathlib.Decide.{dec_lt}
use bankstmt_analyzer.Prelude.{
  All, ap, subst, inl, inr, Bool-cases, ◌+◌, ◌∙◌, ℕ, zero, suc, ◌-◌, ◌≤◌, ◌<◌, ◌≡◌, refl, true,
  false, List, [], ◌∷◌, ◌++◌, arith, length, length-append, length-take, take,
}
use bankstmt_analyzer.Text.{Bytes}
use bankstmt_analyzer.Pipeline.Scrub.{rune_start, rune_start_at, cut_back, truncate, ellipsis}

pub cut_back-le : (s : Bytes) (cut : ℕ) → cut_back s cut ≤ cut
unfolding cut_back
cut_back-le s zero = omega arith
cut_back-le s (suc cut) = ground (arith, cut_back-le s cut)

-- Whatever it cuts, `truncate` returns at most `limit` bytes if `limit` has room for the ellipsis.
pub length-truncate : (s : Bytes) (limit : ℕ) → 3 ≤ limit → length (truncate s limit) ≤ limit
unfolding truncate
length-truncate s limit h = ground (
  arith,
  length-append (take (cut_back s (limit - 3)) s) ellipsis,
  length-take (cut_back s (limit - 3)) s,
  cut_back-le s (limit - 3),
)

-- The bytes of one rune: one that starts a rune, and others that do not.
abbrev pub IsRune : Bytes → Type 0
IsRune [] = ⊥
IsRune (c ∷ cs) = (rune_start c ≡ true) × All (λ d. rune_start d ≡ false) cs

-- The first runes are all that is left before a byte that starts a rune.
take_runes :
    (cs : Bytes) (rs : List Bytes) (m : ℕ)
    → All (λ d. rune_start d ≡ false) cs
    → m < length (cs ++ flatten rs)
    → rune_start_at (cs ++ flatten rs) m ≡ true
    → ((i : ℕ)
        → i < length (flatten rs)
        → rune_start_at (flatten rs) i ≡ true
        → (n : ℕ) × (take i (flatten rs) ≡ flatten (take n rs)))
    → (n : ℕ) × (take m (cs ++ flatten rs) ≡ cs ++ flatten (take n rs))
unfolding rune_start_at
take_runes [] rs m conts lt start ih = ih m lt start
take_runes (d ∷ cs) rs zero conts lt start ih = cc
take_runes (d ∷ cs) rs (suc m) conts lt start ih =
    let (n, e) = take_runes cs rs m conts.1 (omega arith) start ih in (n, ap (λ t. d ∷ t) e)

take-start :
    (rs : List Bytes) (m : ℕ)
    → All IsRune rs
    → m < length (flatten rs)
    → rune_start_at (flatten rs) m ≡ true
    → (n : ℕ) × (take m (flatten rs) ≡ flatten (take n rs))
unfolding rune_start_at flatten
take-start rs zero runes lt start = (0, refl)
take-start [] (suc m) runes lt start = absurd (omega arith)
take-start ([] ∷ rs) (suc m) runes lt start = absurd runes.0
take-start ((c ∷ cs) ∷ rs) (suc m) runes lt start =
    let (n, e) = take_runes cs rs m runes.0.1 (omega arith) start (λ i. take-start rs i runes.1) in
    (suc n, ap (λ t. c ∷ t) e)

-- Where `cut_back` stops a rune starts.
cut_back-start :
    (s : Bytes) (cut : ℕ) → rune_start_at s 0 ≡ true → rune_start_at s (cut_back s cut) ≡ true
unfolding cut_back
cut_back-start s zero h = h
cut_back-start s (suc cut) h = ground (arith, cut_back-start s cut h)

first_starts : (rs : List Bytes) → All IsRune rs → rune_start_at (flatten rs) 0 ≡ true
unfolding rune_start_at flatten
first_starts [] h = refl
first_starts ([] ∷ rs) h = absurd h.0
first_starts ((c ∷ cs) ∷ rs) h = h.0.0

-- No rune starts behind where `cut_back` stops, up to where it began.
cut_back-passes : (s : Bytes) (cut i : ℕ) → cut_back s cut < i → i ≤ cut → rune_start_at s i ≡ false
unfolding cut_back
cut_back-passes s zero i lt le = absurd (omega arith)
cut_back-passes s (suc cut) i lt le = elim (Bool-cases (rune_start_at s (suc cut))) [
  | inl starts ↦ absurd (ground arith)
  | inr none ↦ elim (dec_lt i (suc cut)) [
    | yes before ↦ cut_back-passes s cut i (rw (cut_back, none) at lt) (omega arith)
    | no last ↦ let e : suc cut ≡ i = omega arith in subst (λ j. rune_start_at s j ≡ false) e none
  ]
]

rune_start_at-append :
    (cs s : Bytes) (i : ℕ) → rune_start_at (cs ++ s) (length cs + i) ≡ rune_start_at s i
unfolding rune_start_at
rune_start_at-append [] s i = let e : 0 + i ≡ i = omega arith in ap (rune_start_at s) e
rune_start_at-append (c ∷ cs) s i =
    let e : suc (length cs) + i ≡ suc (length cs + i) = omega arith in
    ap (rune_start_at (c ∷ cs ++ s)) e ∙ rune_start_at-append cs s i

-- Behind whole runes a rune starts, or the text ends.
behind_runes :
    (rs : List Bytes) (n : ℕ)
    → All IsRune rs
    → rune_start_at (flatten rs) (length (flatten (take n rs))) ≡ true
unfolding flatten
behind_runes rs zero runes = first_starts rs runes
behind_runes [] (suc n) runes = first_starts [] tt
behind_runes (r ∷ rs) (suc n) runes =
    ap (rune_start_at (r ++ flatten rs)) (length-append r (flatten (take n rs)))
    ∙ rune_start_at-append r (flatten rs) (length (flatten (take n rs)))
    ∙ behind_runes rs n runes.1

-- One more rune is more bytes, unless there is none.
one_more :
    (rs : List Bytes) (n : ℕ)
    → All IsRune rs
    → length (flatten (take n rs)) < length (flatten rs)
    → length (flatten (take n rs)) < length (flatten (take (suc n) rs))
unfolding flatten
one_more [] n runes lt = absurd (ground arith)
one_more ([] ∷ rs) n runes lt = absurd runes.0
one_more ((c ∷ cs) ∷ rs) zero runes lt = ground arith
one_more ((c ∷ cs) ∷ rs) (suc n) runes lt = omega (
  arith,
  length-append (c ∷ cs) (flatten (take n rs)),
  length-append (c ∷ cs) (flatten (take (suc n) rs)),
  one_more rs n runes.1 (
      omega (
        arith,
        length-append (c ∷ cs) (flatten (take n rs)),
        length-append (c ∷ cs) (flatten rs),
        lt,
      )),
)

-- A text of whole runes that is longer than the limit, which is at least 3, is cut to its first runes, as they were,
-- and the ellipsis: to as many as there is room for, so that with one more rune it would be longer than the limit.
pub truncate-runes :
    (rs : List Bytes) (limit : ℕ)
    → All IsRune rs
    → 3 ≤ limit
    → limit < length (flatten rs)
    → (n : ℕ) × (truncate (flatten rs) limit ≡ flatten (take n rs) ++ ellipsis)
      × (length (flatten (take n rs)) + 3 ≤ limit)
      × (limit < length (flatten (take (suc n) rs)) + 3)
unfolding truncate
truncate-runes rs limit runes room long =
    let text = flatten rs in
    let cut = cut_back text (limit - 3) in
    let le = cut_back-le text (limit - 3) in
    let (n, e) =
      take-start rs cut runes (omega (arith, le))
        (cut_back-start text (limit - 3) (first_starts rs runes)) in
    let size : length (flatten (take n rs)) ≡ cut =
      omega (arith, ap length e, length-take cut text, le, long, room) in
    (
      n,
      ground (arith, ap (λ t. t ++ ellipsis) e),
      omega (arith, le, size),
      elim (dec_lt limit (length (flatten (take (suc n) rs)) + 3)) [
        | yes over ↦ over
        | no under ↦ absurd (
            ground (
              arith,
              behind_runes rs (suc n) runes,
              cut_back-passes text (limit - 3) (length (flatten (take (suc n) rs)))
                  (omega (arith, size, one_more rs n runes (omega (arith, size, le))))
                  (omega arith),
            ))
      ],
    )
