-- ===== src/Http/Uploads/Unqueued.antt =====
-- What `create` (internal/http/uploads.go) records when the queue refuses an upload.
use bankstmt_analyzer.Prelude.{
  ℕ, ◌≡◌, refl, sym, subst, ap, ◌∙◌, ◌⊎◌, false, Option, none, some, List, [], ◌∷◌, map, arith,
  ◌==◌, All,
}
use bankstmt_analyzer.Text.{Bytes}
use bankstmt_analyzer.Go.{Error, Result, ok, err}
use bankstmt_analyzer.Go.Hoare.{OnOk}
use bankstmt_analyzer.Db.{Uuid, failed, Upload, Db}
use bankstmt_analyzer.Db.Queries.{with_status, set_upload_status, send}
use bankstmt_analyzer.Db.Store.{NewUploadFile, create_upload_with_files}
use bankstmt_analyzer.Db.Store.Quiet.{IsQuiet, create_upload_with_files-IsQuiet}
use bankstmt_analyzer.World.{World}
use bankstmt_analyzer.Http.Problem.{
  Problem, Response, RequestInfo, write_problem, write_error, fill_problem, new_problem, internal,
  status_code,
}
use bankstmt_analyzer.Http.Uploads.{UploadConfig, Next, discard, read_files}
use bankstmt_analyzer.Http.Uploads.Create.{
  CreateUploadResponse, queue, record_files, create, mark_unqueued, unqueued_reason,
}
use bankstmt_analyzer.Http.Uploads.Refusals.{read_files-db}

-- A row of the upload says that it has failed, and why.
abbrev pub SaysUnqueued : Uuid → Upload → Type 0
SaysUnqueued upload u =
    (u.id == upload ≡ false) ⊎ ((u.status ≡ failed) × (u.failure_reason ≡ some unqueued_reason))

marked :
    (upload now : ℕ) (us : List Upload)
    → All (SaysUnqueued upload) (map (with_status failed (some unqueued_reason) upload now) us)
marked upload now [] = tt
marked upload now (u ∷ us) = (ground arith, marked upload now us)

mark_unqueued-eq :
    (upload : Uuid) (w : World)
    → IsQuiet w.db
    → (mark_unqueued upload w).db.uploads
      ≡ map (with_status failed (some unqueued_reason) upload w.db.now) w.db.uploads
unfolding mark_unqueued set_upload_status send
mark_unqueued-eq upload w up = ground arith

module _ (uuid_text : Uuid → Bytes) (cfg : UploadConfig) (r : RequestInfo) where
  queue-unqueued :
      (row : Upload) (upload : Uuid) (e : Error) (w : World)
      → IsQuiet w.db
      → (status_code (queue uuid_text cfg r row upload (err e) w).0 ≡ 503)
        × All (SaysUnqueued upload) (queue uuid_text cfg r row upload (err e) w).1.db.uploads
  unfolding queue write_problem fill_problem new_problem
  queue-unqueued row upload e w quiet = (
    refl,
    subst (All (SaysUnqueued upload)) (sym (mark_unqueued-eq upload w quiet))
        (marked upload w.db.now w.db.uploads),
  )

  ended :
      (upload : Uuid) (e : Error) (files : List NewUploadFile) (r' : Result Upload) (w : World)
      (row : Upload)
      → r' ≡ ok row
      → IsQuiet w.db
      → (λ (t : Response CreateUploadResponse × World).
            (status_code t.0 ≡ 503) × All (SaysUnqueued upload) t.1.db.uploads)
          (elim r' [
            | err e' ↦ (write_error r (internal e'), discard files w)
            | ok u ↦ queue uuid_text cfg r u upload (err e) w
          ])
  ended upload e files (err e') w row h quiet = cc
  ended upload e files (ok u) w row h quiet = queue-unqueued u upload e w quiet

  record_files-unqueued :
      (upload : Uuid) (e : Error) (files : List NewUploadFile) (w : World) (row : Upload) (db : Db)
      → create_upload_with_files upload files w.db ≡ (ok row, db)
      → IsQuiet db
      → (status_code (record_files uuid_text cfg r upload (err e) files w).0 ≡ 503)
        × All
            (SaysUnqueued upload)
            (record_files uuid_text cfg r upload (err e) files w).1.db.uploads
  unfolding record_files
  record_files-unqueued upload e files w row db recorded quiet =
      ended upload e files (create_upload_with_files upload files w.db).0
        (record w { db = (create_upload_with_files upload files w.db).1 }) row
        (ap (λ t. t.0) recorded) (ap (λ t. t.1.outages) recorded ∙ quiet)

  create-eq :
      (upload : Uuid) (enqueued : Result (Unit {0})) (parts : List Next) (w : World)
      (files : List NewUploadFile) (w₁ : World)
      → read_files uuid_text cfg upload parts w ≡ (files, none, w₁)
      → create uuid_text cfg r upload enqueued (some parts) w
        ≡ record_files uuid_text cfg r upload enqueued files w₁
  unfolding create
  create-eq upload enqueued parts w files w₁ read =
      ap
        (λ (t : List NewUploadFile × Option Problem × World).
          elim t.1 as (λ _. Response CreateUploadResponse × World) [
            | some p ↦ (write_problem r (some p), discard t.0 t.2)
            | none ↦ record_files uuid_text cfg r upload enqueued t.0 t.2
          ])
        read

  -- When the files of a request are stored and recorded, the server answers, and the queue refuses the
  -- upload, the answer is a 503, and every row of the upload says that it has failed and that it could not
  -- be queued.
  pub create-unqueued :
      (upload : Uuid) (e : Error) (parts : List Next) (w : World) {files : List NewUploadFile}
      {w₁ : World} {row : Upload} {db : Db}
      → w.db.outages ≡ []
      → read_files uuid_text cfg upload parts w ≡ (files, none, w₁)
      → create_upload_with_files upload files w₁.db ≡ (ok row, db)
      → (status_code (create uuid_text cfg r upload (err e) (some parts) w).0 ≡ 503)
        × All
            (SaysUnqueued upload)
            (create uuid_text cfg r upload (err e) (some parts) w).1.db.uploads
  create-unqueued upload e parts w {files} {w₁} {row} {db} up read recorded =
      subst (λ t. (status_code t.0 ≡ 503) × All (SaysUnqueued upload) t.1.db.uploads)
        (sym (create-eq upload (err e) parts w files w₁ read))
        (record_files-unqueued upload e files w₁ row db recorded quiet)
    where
      same : w₁.db ≡ w.db
      same = ap (λ t. t.2.db) (sym read) ∙ read_files-db uuid_text cfg upload parts w

      quiet : IsQuiet db
      quiet =
          subst (OnOk (λ _. IsQuiet)) recorded
            (create_upload_with_files-IsQuiet upload files w₁.db (ap (λ d. d.outages) same ∙ up))
