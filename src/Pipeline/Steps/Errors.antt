-- ===== src/Pipeline/Steps/Errors.antt =====
-- What the failure of a step of internal/pipeline leaves: the error that is passed on, and the reason that
-- is recorded for the upload.
use bankstmt_analyzer.Prelude.{
  ℕ, ◌≤◌, ◌≡◌, ◌≢◌, ◌⊎◌, inl, inr, Bool-cases, ◌==◌, ◌∷◌, refl, sym, ◌∙◌, ap, subst, le→leb,
  length-append, false, Option, some, List, [], ◌++◌, map, arith, length, All, In,
}
use bankstmt_analyzer.Text.{Bytes, codes, contains}
use bankstmt_analyzer.Text.Space.{trim_space}
use bankstmt_analyzer.Go.{Error, plain, error_text, Result, ok, err}
use bankstmt_analyzer.Db.{Uuid, Upload, failed}
use bankstmt_analyzer.Db.Queries.{with_status, set_upload_status, send}
use bankstmt_analyzer.World.{World, query}
use bankstmt_analyzer.Pipeline.Scrub.{Scrubber, new_scrubber, message, truncate}
use bankstmt_analyzer.Pipeline.Scrub.Hides.{IsHideable, clean-hides_secrets}
use bankstmt_analyzer.Pipeline.Scrub.Lines.{InLine, message_bounds}
use bankstmt_analyzer.Pipeline.Steps.{State, Step, scrubbed, instrument, mark_failed, on_failed}

text_of : Result State → Bytes
unfolding error_text
text_of (ok _) = []
text_of (err e) = error_text e

err_text :
    (text : Bytes) (e : Error)
    → (r : Result State) → r ≡ err (plain text)
    → r ≡ err e
    → text ≡ error_text e
unfolding text_of error_text
err_text text e r g h = ap text_of (sym g ∙ h)

truncate-eq : (s : Bytes) (limit : ℕ) → length s ≤ limit → truncate s limit ≡ s
unfolding truncate
truncate-eq s limit h = rw (le→leb (length s) limit h) refl

reason-le :
    (s : Scrubber) (step : Bytes) (cause : Option Bytes)
    → length step ≤ 98
    → length (step ++ (codes ": " ++ message s cause)) ≤ 500
reason-le s step cause h =
    omega (arith, length-append step (codes ": " ++ message s cause), (message_bounds s cause).0)

marks_failed :
    (reason : Bytes) (state : State) (w : World)
    → w.db.outages ≡ []
    → (query (set_upload_status failed (some reason) state.upload_id) w).1.db.uploads
      ≡ map (with_status failed (some reason) state.upload_id w.db.now) w.db.uploads
unfolding set_upload_status send
marks_failed reason state w up = ground arith

-- Whatever a step's error says, what `instrument` passes on of it is one line of at most 400 bytes in which
-- no configured secret stands that has 8 bytes or more between its outer white space, no bracket or space, is
-- no part of the word "redacted" and does not end in a dot.
pub instrument-hides_secrets :
    (secrets : List Bytes) (k : Bytes) (step : Step) (state : State) (w : World) {e : Error}
    {w' : World}
    → In k secrets
    → 8 ≤ length (trim_space k)
    → IsHideable k
    → instrument (new_scrubber secrets) step state w ≡ (err e, w')
    → (length (error_text e) ≤ 400)
      × All InLine (error_text e)
      × (contains (error_text e) k ≡ false)
unfolding instrument
instrument-hides_secrets secrets k step state w {e} i long hide h =
    go (step state w).0 (ap (λ p. p.0) h)
  where
    go :
        (r : Result State)
        → scrubbed (new_scrubber secrets) r ≡ err e
        → (length (error_text e) ≤ 400)
          × All InLine (error_text e)
          × (contains (error_text e) k ≡ false)
    go (ok s) h = absurd (ground arith)
    go (err c) h =
        subst (λ text. (length text ≤ 400) × All InLine text × (contains text k ≡ false))
          (err_text _ e _ refl h)
          (
            (message_bounds (new_scrubber secrets) (some (error_text c))).0,
            (message_bounds (new_scrubber secrets) (some (error_text c))).1,
            clean-hides_secrets secrets k (error_text c) i long hide,
          )

-- The rows of the upload say that it has failed, and why; every other row is as it was.
abbrev pub FailedOnly : Uuid → Bytes → List Upload → List Upload → Type 0
FailedOnly id reason [] [] = Unit
FailedOnly id reason (u ∷ us) (v ∷ vs) =
    (((u.id ≡ id) × (v.id ≡ id) × (v.status ≡ failed) × (v.failure_reason ≡ some reason))
      ⊎ ((u.id ≢ id) × (v ≡ u)))
    × FailedOnly id reason us vs
FailedOnly id reason _ _ = ⊥

with_status-FailedOnly :
    (id : Uuid) (reason : Bytes) (now : ℕ) (us : List Upload)
    → FailedOnly id reason us (map (with_status failed (some reason) id now) us)
with_status-FailedOnly id reason now [] = tt
with_status-FailedOnly id reason now (u ∷ us) = elim (Bool-cases (u.id == id)) [
  | inl own ↦ (inl (ground arith), with_status-FailedOnly id reason now us)
  | inr other ↦ (inr (ground arith, rw other refl), with_status-FailedOnly id reason now us)
]

-- When the server answers and the failed step's name has at most 98 bytes, `onFailed` marks the rows of the upload
-- as failed, and leaves every other row as it was; the reason is the step's name and the whole message, and has at
-- most 500 bytes.
pub on_failed-records :
    (s : Scrubber) (state : State) (step : Bytes) (cause : Option Bytes) (w : World)
    → w.db.outages ≡ []
    → length step ≤ 98
    → FailedOnly state.upload_id
        (step ++ (codes ": " ++ message s cause))
        w.db.uploads
        (on_failed s state step cause w).db.uploads
      × (length (step ++ (codes ": " ++ message s cause)) ≤ 500)
unfolding on_failed mark_failed
on_failed-records s state step cause w up short = (
  subst (FailedOnly state.upload_id (step ++ (codes ": " ++ message s cause)) w.db.uploads)
      (sym (rw (truncate-eq _ 500 (reason-le s step cause short)) (marks_failed _ state w up)))
      (with_status-FailedOnly state.upload_id _ w.db.now w.db.uploads),
  reason-le s step cause short,
)
