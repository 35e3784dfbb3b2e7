-- ===== src/Storage/Objects.antt =====
-- The objects of a store, a directory or a bucket, and the calls that reach them.
use bankstmt_analyzer.Prelude.{
  ◌≡◌, refl, ap, sym, subst, false, Option, none, some, List, [], ◌∷◌, arith, if◌then◌else◌,
  Bool-cases, inl, inr,
}
use bankstmt_analyzer.Text.{Bytes, bytes_eq}
use bankstmt_analyzer.Text.Equal.{bytes_eq_refl, bytes_eq_sound}
use bankstmt_analyzer.Go.{plain, ok, err}
use bankstmt_analyzer.Go.Monad.{Exec}
use bankstmt_analyzer.World.{find_blob, remove_blob}

-- `faults` says of each call to come whether it fails, with which message.
pub record Objects : Type 0 where
  pub objects : List (Bytes × Bytes)
  pub faults : List (Option Bytes)

-- A call of the system or the service.
unfoldable pub system : Exec Objects (Unit {0})
system s = elim s.faults [
  | [] ↦ (ok tt, s)
  | none ∷ rest ↦ (ok tt, record s { faults = rest })
  | some text ∷ rest ↦ (err (plain text), record s { faults = rest })
]

-- What is written replaces what is there.
abbrev pub set_object : Bytes → Bytes → Objects → Objects
set_object name body s = record s { objects = (name, body) ∷ remove_blob name s.objects }

abbrev pub drop_object : Bytes → Objects → Objects
drop_object name s = record s { objects = remove_blob name s.objects }

pub find-own :
    (name body : Bytes) (rest : List (Bytes × Bytes))
    → find_blob name ((name, body) ∷ rest) ≡ some body
unfolding find_blob
find-own name body rest = rw (bytes_eq_refl name) refl

pub find-other :
    (name other body : Bytes) (rest : List (Bytes × Bytes))
    → bytes_eq name other ≡ false
    → find_blob other ((name, body) ∷ rest) ≡ find_blob other rest
unfolding find_blob
find-other name other body rest n = rw n refl

pub find-removed :
    (name : Bytes) (objects : List (Bytes × Bytes))
    → find_blob name (remove_blob name objects) ≡ none
unfolding find_blob remove_blob
find-removed name [] = refl
find-removed name ((k, body) ∷ rest) = ground (arith, find-removed name rest)

pub find-kept :
    (name other : Bytes) (objects : List (Bytes × Bytes))
    → bytes_eq name other ≡ false
    → find_blob other (remove_blob name objects) ≡ find_blob other objects
unfolding find_blob remove_blob
find-kept name other [] n = refl
find-kept name other ((k, body) ∷ rest) n = elim (Bool-cases (bytes_eq k name)) [
  | inl e ↦
      rw (e, subst (λ x. bytes_eq x other ≡ false) (sym (bytes_eq_sound k name e)) n)
        (find-kept name other rest n)
  | inr m ↦ rw m (ap (λ o. if bytes_eq k other then some body else o) (find-kept name other rest n))
]
