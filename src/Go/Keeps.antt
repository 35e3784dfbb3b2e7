-- ===== src/Go/Keeps.antt =====
-- Invariants of the state that calls keep, whatever they return.
use bankstmt_analyzer.Prelude.{Bool, true, false}
use bankstmt_analyzer.Text.{Bytes}
use bankstmt_analyzer.Go.{Error, Result, ok, err}
use bankstmt_analyzer.Go.Monad.{Exec, context, lift, raise_if, gets, modify, ◌>>=◌}

-- What a call keeps of the state, whatever it returns.
pub record Keeps {S A : Type 0} (I : S → Type 0) (q : Exec S A) : Type 0 where
  pub after : (s : S) → I s → I (q s).1

module _ {S : Type 0} (I : S → Type 0) {A : Type 0} where
  pub lift-Keeps : (r : Result A) → Keeps I (lift {S = S} r)
  lift-Keeps r = record { after = λ s h. h }

  pub context-Keeps : (text : Bytes) {q : Exec S A} → Keeps I q → Keeps I (context text q)
  context-Keeps text h = record { after = h.after }

  bind-after :
      {B : Type 0} (f : A → Exec S B) (k : (a : A) → Keeps I (f a)) (s t : S) (r : Result A)
      → I t
      → I (((λ (_ : S). (r, t)) >>= f) s).1
  bind-after f k s t (ok a) h = (k a).after t h
  bind-after f k s t (err e) h = h

  pub >>=-Keeps :
      {B : Type 0} {q : Exec S A} {f : A → Exec S B}
      → Keeps I q
      → ((a : A) → Keeps I (f a))
      → Keeps I (q >>= f)
  >>=-Keeps {B} {q} {f} h k = record {
    after = λ s i. bind-after f k s (q s).1 (q s).0 (h.after s i);
  }

module _ {S : Type 0} (I : S → Type 0) where
  pub gets-Keeps : {A : Type 0} (read : S → A) → Keeps I (gets read)
  gets-Keeps read = record { after = λ s h. h }

  pub modify-Keeps : (f : S → S) → ((s : S) → I s → I (f s)) → Keeps I (modify f)
  modify-Keeps f h = record { after = h }

  pub raise_if-Keeps : (bad : Bool) (e : Error) → Keeps I (raise_if {S = S} bad e)
  raise_if-Keeps true e = record { after = λ s h. h }
  raise_if-Keeps false e = record { after = λ s h. h }
