-- ===== src/Pipeline/Steps/Marks.antt =====
-- The steps of internal/pipeline/steps.go that mark the upload, with a database that answers.
use bankstmt_analyzer.Prelude.{
  ℕ, ◌≡◌, refl, ◌∙◌, true, Option, none, some, List, [], ◌∷◌, map, arith, ◌==◌, Bool-cases, inl,
  inr,
}
use bankstmt_analyzer.Text.{Bytes}
use bankstmt_analyzer.Go.{ok}
use bankstmt_analyzer.Db.{Uuid, Status, processing, completed, Upload, Db}
use bankstmt_analyzer.Db.Queries.{any_row, first_row, with_status, set_upload_status}
use bankstmt_analyzer.Db.Store.Quiet.{send-eq}
use bankstmt_analyzer.Pipeline.Steps.Resume.Progress.{IsCalm}
use bankstmt_analyzer.World.{World}
use bankstmt_analyzer.Pipeline.Steps.{State, mark_processing, mark_completed}

-- The upload is recorded.
abbrev pub IsRecorded : Uuid → Db → Type 0
IsRecorded id db = any_row (λ u. u.id == id) db.uploads ≡ true

-- The upload's row says the status and the reason.
pub record Says (status : Status) (reason : Option Bytes) (id : Uuid) (db : Db) : Type 0 where
  pub upload : Upload
  pub found : first_row (λ u. u.id == id) db.uploads ≡ some upload
  pub status_kept : upload.status ≡ status
  pub reason_kept : upload.failure_reason ≡ reason

first_row-with_status :
    (status : Status) (reason : Option Bytes) (id : Uuid) (now : ℕ) (us : List Upload)
    → any_row (λ u. u.id == id) us ≡ true
    → (u : Upload) × (first_row (λ u. u.id == id) (map (with_status status reason id now) us)
        ≡ some u)
      × (u.status ≡ status)
      × (u.failure_reason ≡ reason)
first_row-with_status status reason id now [] h = absurd (ground arith)
first_row-with_status status reason id now (u ∷ us) h = elim (Bool-cases (u.id == id)) [
  | inl own ↦ (
    record u { status = status; failure_reason = reason; updated_at = now },
    ground arith,
    refl,
    refl,
  )
  | inr other ↦
      let (v, found, s, r) = first_row-with_status status reason id now us (ground arith) in
      (v, ground arith, s, r)
]

any_row-with_status :
    (status : Status) (reason : Option Bytes) (id : Uuid) (now : ℕ) (us : List Upload)
    → any_row (λ u. u.id == id) (map (with_status status reason id now) us)
      ≡ any_row (λ u. u.id == id) us
any_row-with_status status reason id now [] = refl
any_row-with_status status reason id now (u ∷ us) =
    ground (arith, any_row-with_status status reason id now us)

-- `SetUploadStatus` on a recorded upload.
set_upload_status_passes :
    (status : Status) (reason : Option Bytes) (id : Uuid) (db : Db)
    → db.outages ≡ []
    → IsRecorded id db
    → (u : Upload) × (set_upload_status status reason id db
        ≡ (ok u, record db { uploads = map (with_status status reason id db.now) db.uploads }))
      × Says status reason id
          (record db { uploads = map (with_status status reason id db.now) db.uploads })
unfolding set_upload_status
set_upload_status_passes status reason id db quiet h =
    let (u, found, s, r) = first_row-with_status status reason id db.now db.uploads h in
    (
      u,
      rw (send-eq db quiet, found) refl,
      record { upload = u; found = found; status_kept = s; reason_kept = r },
    )

module _ (blobs : List (Bytes × Bytes)) where
  pub mark_processing_passes :
      (state : State) (w : World)
      → IsCalm blobs w
      → IsRecorded state.upload_id w.db
      → (w' : World) × (mark_processing state w ≡ (ok state, w'))
        × IsCalm blobs w'
        × IsRecorded state.upload_id w'.db
        × (w'.db.upload_files ≡ w.db.upload_files)
        × (w'.db.analyses ≡ w.db.analyses)
  unfolding mark_processing
  mark_processing_passes state w calm h =
      let (u, sent, _) =
        set_upload_status_passes processing none state.upload_id w.db calm.quiet h in
      (
        record w {
          db = record w.db {
            uploads = map (with_status processing none state.upload_id w.db.now) w.db.uploads;
          };
        },
        rw sent refl,
        record { quiet = calm.quiet; reached = calm.reached; stored = calm.stored },
        any_row-with_status processing none state.upload_id w.db.now w.db.uploads ∙ h,
        refl,
        refl,
      )

  pub mark_completed_passes :
      (state : State) (w : World)
      → IsCalm blobs w
      → IsRecorded state.upload_id w.db
      → (w' : World) × (mark_completed state w ≡ (ok state, w'))
        × IsCalm blobs w'
        × Says completed none state.upload_id w'.db
        × (w'.db.analyses ≡ w.db.analyses)
  unfolding mark_completed
  mark_completed_passes state w calm h =
      let (u, sent, says) =
        set_upload_status_passes completed none state.upload_id w.db calm.quiet h in
      (
        record w {
          db = record w.db {
            uploads = map (with_status completed none state.upload_id w.db.now) w.db.uploads;
          };
        },
        rw sent refl,
        record { quiet = calm.quiet; reached = calm.reached; stored = calm.stored },
        says,
        refl,
      )
