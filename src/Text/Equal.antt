-- ===== src/Text/Equal.antt =====
-- The test of equality on texts decides it.
use bankstmt_analyzer.Prelude.{◌≡◌, ◌≢◌, refl, true, false, [], ◌∷◌, arith}
use bankstmt_analyzer.Text.{Bytes, bytes_eq}

pub bytes_eq_refl : (a : Bytes) → bytes_eq a a ≡ true
unfolding bytes_eq
bytes_eq_refl [] = refl
bytes_eq_refl (c ∷ s) = ground (arith, bytes_eq_refl s)

pub bytes_eq_sound : (a b : Bytes) → bytes_eq a b ≡ true → a ≡ b
unfolding bytes_eq
bytes_eq_sound [] [] h = refl
bytes_eq_sound [] (d ∷ t) h = ground arith
bytes_eq_sound (c ∷ s) [] h = ground arith
bytes_eq_sound (c ∷ s) (d ∷ t) h = ground (arith, bytes_eq_sound s t)

pub bytes_eq-ne : (a b : Bytes) → bytes_eq a b ≡ false → a ≢ b
bytes_eq-ne a b n e = cc (bytes_eq_refl a)
