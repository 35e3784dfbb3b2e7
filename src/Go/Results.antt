-- ===== src/Go/Results.antt =====
-- Calls that change nothing and may return an error, one after the other.
use bankstmt_analyzer.Prelude.{◌≡◌, refl, ap, Option, none, some}
use bankstmt_analyzer.Go.{Error, Result, ok, err}

-- `if !found { return err }`
abbrev pub or_err {ℓ} : {A : Type ℓ} → Error → Option A → Result A
or_err e none = err e
or_err e (some a) = ok a

-- `if err != nil { return other }`
abbrev pub instead {ℓ} : {A : Type ℓ} → Error → Result A → Result A
instead e (ok a) = ok a
instead e (err _) = err e

pub ok-injective : {A : Type 0} {a b : A} → ok a ≡ ok b → a ≡ b
ok-injective {a} h = ap (λ r. elim r [ ok x ↦ x | err _ ↦ a ]) h

module _ {ℓ κ} {A : Type ℓ} {B : Type κ} where
  infixl 5 ◌>>=◌ ◌>>◌
  -- `value, err := call`, with the return if there is an error.
  abbrev pub ◌>>=◌ : Result A → (A → Result B) → Result B
  call >>= rest = elim call [ ok value ↦ rest value | err e ↦ err e ]

  -- `if err := call; err != nil { return err }`
  abbrev pub ◌>>◌ : Result A → Result B → Result B
  call >> rest = call >>= λ _. rest

  -- What a chain of calls that ends well has computed.
  pub >>=-eq-ok :
      (call : Result A) (rest : A → Result B)
      → {out : B} → (call >>= rest) ≡ ok out
      → (value : A) × (call ≡ ok value) × (rest value ≡ ok out)
  >>=-eq-ok (err e) rest ended = cc
  >>=-eq-ok (ok value) rest ended = (value, refl, ended)

  pub >>-eq-ok :
      (call : Result A) (rest : Result B)
      → {out : B} → (call >> rest) ≡ ok out
      → (value : A) × (call ≡ ok value) × (rest ≡ ok out)
  >>-eq-ok call rest ended = >>=-eq-ok call (λ _. rest) ended
