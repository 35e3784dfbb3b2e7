-- ===== src/Go/Monad.antt =====
-- Calls that change a state and may return an error. What was written before an error stays written.
use bankstmt_analyzer.Prelude.{Bool, true, false}
use bankstmt_analyzer.Text.{Bytes}
use bankstmt_analyzer.Go.{Error, wrap, Result, ok, err}

abbrev pub Exec {ℓ} : Type ℓ → Type ℓ → Type ℓ
Exec S A = S → Result A × S

abbrev pub annotate {ℓ} : {A : Type ℓ} → Bytes → Result A → Result A
annotate text (ok a) = ok a
annotate text (err e) = err (wrap text e)

module _ {ℓ} {S A : Type ℓ} where
  -- `if err != nil { return fmt.Errorf("text: %w", err) }`
  abbrev pub context : Bytes → Exec S A → Exec S A
  context text call before = let (r, after) = call before in (annotate text r, after)

  -- A call that has been answered, and changes nothing.
  abbrev pub lift : Result A → Exec S A
  lift answer = λ state. (answer, state)

  abbrev pub raise : Error → Exec S A
  raise e = lift (err e)

  abbrev pub pure : A → Exec S A
  pure value = lift (ok value)

  abbrev pub gets : (S → A) → Exec S A
  gets read = λ state. (ok (read state), state)

module _ {ℓ} {S A B : Type ℓ} where
  -- What follows a call: nothing, if it returned an error.
  abbrev pub continue : Result A → (A → Exec S B) → Exec S B
  continue (err e) rest state = (err e, state)
  continue (ok value) rest state = rest value state

  infixl 5 ◌>>=◌ ◌>>◌
  abbrev pub ◌>>=◌ : Exec S A → (A → Exec S B) → Exec S B
  ◌>>=◌ call rest before = let (answer, after) = call before in continue answer rest after

  abbrev pub ◌>>◌ : Exec S A → Exec S B → Exec S B
  first >> rest = first >>= λ _. rest

abbrev pub modify : {S : Type 0} → (S → S) → Exec S (Unit {0})
modify f s = (ok tt, f s)

-- `if bad { return err }`
abbrev pub raise_if : {S : Type 0} → Bool → Error → Exec S (Unit {0})
raise_if true e s = (err e, s)
raise_if false e s = (ok tt, s)
