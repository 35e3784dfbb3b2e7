-- ===== src/Text/Trim.antt =====
-- `strings.TrimLeft`, `strings.TrimRight` and `strings.Trim` for a cutset of one byte.
use bankstmt_analyzer.Prelude.{
  Bool, ℕ, zero, suc, ◌≡◌, refl, false, ◌&&◌, [], ◌∷◌, ◌++◌, arith, replicate, ◌==◌, if◌then◌else◌,
}
use bankstmt_analyzer.Text.{Bytes, is_empty}
use bankstmt_analyzer.Text.Search.{ends_with}

unfoldable pub trim_left : Bytes → ℕ → Bytes
trim_left [] b = []
trim_left (c ∷ s) b = if c == b then trim_left s b else c ∷ s

unfoldable pub trim_right : Bytes → ℕ → Bytes
trim_right [] b = []
trim_right (c ∷ s) b = let rest = trim_right s b in if c == b && is_empty rest then [] else c ∷ rest

unfoldable pub trim : Bytes → ℕ → Bytes
unfolding trim_left trim_right
trim s b = trim_right (trim_left s b) b

-- The first byte of the text is `b`.
abbrev pub starts_with_byte : ℕ → Bytes → Bool
starts_with_byte b [] = false
starts_with_byte b (c ∷ s) = c == b

pub trim_left-replicate :
    (b n : ℕ) (s : Bytes) → starts_with_byte b s ≡ false → trim_left (replicate n b ++ s) b ≡ s
unfolding trim_left
trim_left-replicate b zero [] h = refl
trim_left-replicate b zero (c ∷ s) h = ground arith
trim_left-replicate b (suc n) s h = ground (arith, trim_left-replicate b n s h)

trim_right-all : (b n : ℕ) → trim_right (replicate n b) b ≡ []
unfolding trim_right
trim_right-all b zero = refl
trim_right-all b (suc n) = ground (arith, trim_right-all b n)

pub trim_right-replicate :
    (b n : ℕ) (s : Bytes) → ends_with b s ≡ false → trim_right (s ++ replicate n b) b ≡ s
unfolding trim_right
trim_right-replicate b n [] h = trim_right-all b n
trim_right-replicate b n (c ∷ []) h = ground (arith, trim_right-all b n)
trim_right-replicate b n (c ∷ d ∷ s) h = ground (arith, trim_right-replicate b n (d ∷ s) h)

-- What is left does not end with the byte.
pub ends_with-trim_right : (b : ℕ) (s : Bytes) → ends_with b (trim_right s b) ≡ false
unfolding trim_right
ends_with-trim_right b [] = refl
ends_with-trim_right b (c ∷ s) = go (trim_right s b) (ends_with-trim_right b s)
  where
    go :
        (t : Bytes)
        → ends_with b t ≡ false
        → ends_with b (if c == b && is_empty t then [] else c ∷ t) ≡ false
    go [] h = ground arith
    go (d ∷ t) h = ground arith
