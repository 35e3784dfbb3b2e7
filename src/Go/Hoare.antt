-- ===== src/Go/Hoare.antt =====
-- What holds of the value and the state of a call that returns no error.
use bankstmt_analyzer.Text.{Bytes}
use bankstmt_analyzer.Go.{Result, ok, err}
use bankstmt_analyzer.Go.Monad.{Exec, context, ◌>>=◌}

abbrev pub OnOk : {S A : Type 0} → (A → S → Type 0) → Result A × S → Type 0
OnOk P (ok a, s) = P a s
OnOk P (err e, s) = Unit

module _ {S A : Type 0} where
  pub OnOk-mono :
      (P Q : A → S → Type 0) (r : Result A × S)
      → ((a : A) (s : S) → P a s → Q a s)
      → OnOk P r
      → OnOk Q r
  OnOk-mono P Q (ok a, s) f h = f a s h
  OnOk-mono P Q (err e, s) f h = tt

  pub OnOk-context :
      (text : Bytes) (P : A → S → Type 0) (m : Exec S A) (s : S)
      → OnOk P (m s)
      → OnOk P (context text m s)
  OnOk-context text P m s h = go (m s).0 (m s).1 h
    where
      go : (r : Result A) (s' : S) → OnOk P (r, s') → OnOk P (context text (λ _. (r, s')) s)
      go (ok a) s' h = h
      go (err e) s' h = tt

module _ {S A B : Type 0} where
  pub OnOk-bind :
      (P : A → S → Type 0) (Q : B → S → Type 0) (m : Exec S A) (f : A → Exec S B) (s : S)
      → OnOk P (m s)
      → ((a : A) (s' : S) → P a s' → OnOk Q (f a s'))
      → OnOk Q ((m >>= f) s)
  OnOk-bind P Q m f s h k = go (m s).0 (m s).1 h
    where
      go : (r : Result A) (s' : S) → OnOk P (r, s') → OnOk Q (((λ _. (r, s')) >>= f) s)
      go (ok a) s' h = k a s' h
      go (err e) s' h = tt
