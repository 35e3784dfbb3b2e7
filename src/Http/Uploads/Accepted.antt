-- ===== src/Http/Uploads/Accepted.antt =====
-- What `create` (internal/http/uploads.go) leaves when it accepts an upload.
use bankstmt_analyzer.Prelude.{ℕ, ◌≡◌, ◌≢◌, subst, ap₂, Option, none, some, List, [], All}
use bankstmt_analyzer.Text.{Bytes}
use bankstmt_analyzer.Go.{Result, ok, err}
use bankstmt_analyzer.Go.Hoare.{OnOk}
use bankstmt_analyzer.Db.{Uuid, pending, Upload}
use bankstmt_analyzer.Db.Store.{NewUploadFile, create_upload_with_files}
use bankstmt_analyzer.Db.Store.Recorded.{Recorded, create_upload_with_files-Recorded}
use bankstmt_analyzer.World.{World}
use bankstmt_analyzer.Http.Problem.{
  Problem, Response, problem, json, RequestInfo, write_problem, write_error, internal,
}
use bankstmt_analyzer.Http.Uploads.{UploadConfig, Next, discard, read_files}
use bankstmt_analyzer.Http.Uploads.Bounds
use bankstmt_analyzer.Http.Uploads.Bounds.{AllAccepted, read_files-accepts}
use bankstmt_analyzer.Http.Uploads.Create.{CreateUploadResponse, queue, record_files, create}
use bankstmt_analyzer.Http.Uploads.Kept
use bankstmt_analyzer.Http.Uploads.Kept.{read_files-Reading}
use bankstmt_analyzer.Http.Uploads.Parts.{files_of, files_in, AllDescribe, Keeps, OneOf}
use bankstmt_analyzer.Http.Uploads.Refusals.{read_files-db}

module _ (uuid_text : Uuid → Bytes) (cfg : UploadConfig) (r : RequestInfo) (upload : Uuid) where
  -- The upload is recorded as pending, for the first time, with a row for each part of the body that is a file, in
  -- order, which has the part's id, name, type and size. Each is within the limits, and under its key stands all of
  -- the content of a part with its id; no other row has changed.
  pub record Taken (body : Option (List Next)) (before : World)
      (answer : Response CreateUploadResponse × World) : Type 0 where
    pub row : Upload
    pub files : List NewUploadFile
    pub told : answer.0 ≡ json 202 (record { id = upload; status = pending })
    pub some_file : files ≢ []
    pub described : AllDescribe (files_in body) files
    pub within : AllAccepted uuid_text cfg upload files
    pub recorded : Recorded upload files before.db row answer.1.db
    pub kept :
        All (λ f. Keeps (OneOf uuid_text upload (files_in body)) f.storage_key answer.1.blobs) files

  -- What an answer that is no problem document means.
  abbrev Means : Option (List Next) → World → Response CreateUploadResponse × World → Type 0
  Means body before (problem p, w) = Unit
  Means body before (json code answer, w) = Taken body before (json code answer, w)

  abbrev Stored : Option (List Next) → List NewUploadFile → World → Type 0
  Stored body files w =
      AllDescribe (files_in body) files
      × All (λ f. Keeps (OneOf uuid_text upload (files_in body)) f.storage_key w.blobs) files

  queue-Means :
      (body : Option (List Next)) (enqueued : Result (Unit {0})) (row : Upload)
      (files : List NewUploadFile) (before w : World)
      → files ≢ []
      → AllAccepted uuid_text cfg upload files
      → Recorded upload files before.db row w.db
      → Stored body files w
      → Means body before (queue uuid_text cfg r row upload enqueued w)
  unfolding queue write_problem
  queue-Means body (err e) row files before w some_file within recorded kept = tt
  queue-Means body (ok _) row files before w some_file within recorded kept = record {
    row = row;
    files = files;
    told = ap₂ (λ i s. json 202 (record { id = i; status = s })) recorded.named recorded.waiting;
    some_file = some_file;
    described = kept.0;
    within = within;
    recorded = recorded;
    kept = kept.1;
  }

  go_on_with :
      (body : Option (List Next)) (enqueued : Result (Unit {0})) (files : List NewUploadFile)
      (found : Result Upload) (before w : World)
      → files ≢ []
      → AllAccepted uuid_text cfg upload files
      → OnOk (Recorded upload files before.db) (found, w.db)
      → Stored body files w
      → Means body before (elim found [
        | err e ↦ (write_error r (internal e), discard files w)
        | ok u ↦ queue uuid_text cfg r u upload enqueued w
      ])
  unfolding write_error write_problem
  go_on_with body enqueued files (err e) before w some_file within recorded kept = tt
  go_on_with body enqueued files (ok u) before w some_file within recorded kept =
      queue-Means body enqueued u files before w some_file within recorded kept

  record_files-Means :
      (body : Option (List Next)) (enqueued : Result (Unit {0})) (files : List NewUploadFile)
      (before w : World)
      → w.db ≡ before.db
      → files ≢ []
      → AllAccepted uuid_text cfg upload files
      → Stored body files w
      → Means body before (record_files uuid_text cfg r upload enqueued files w)
  unfolding record_files
  record_files-Means body enqueued files before w same some_file within kept =
      let (found, db) = create_upload_with_files upload files w.db in
      go_on_with body enqueued files found before (record w { db = db }) some_file within
        (subst (λ d. OnOk (Recorded upload files d) (found, db)) same
          (create_upload_with_files-Recorded upload files w.db))
        kept

  -- What `create` does with the files that were read.
  go_on :
      (parts : List Next) (enqueued : Result (Unit {0})) (files : List NewUploadFile)
      (refusal : Option Problem) (before w : World)
      → w.db ≡ before.db
      → Bounds.Outcome uuid_text cfg upload (files, refusal, w)
      → Kept.Outcome uuid_text cfg
          (OneOf uuid_text upload (files_of parts))
          (files_of parts)
          (files, refusal, w)
      → Means (some parts) before (elim refusal [
        | some p ↦ (write_problem r (some p), discard files w)
        | none ↦ record_files uuid_text cfg r upload enqueued files w
      ])
  unfolding write_problem
  go_on parts enqueued files (some p) before w same within kept = tt
  go_on parts enqueued files none before w same within kept =
      record_files-Means (some parts) enqueued files before w same within.1 within.0 kept

  create-Means :
      (enqueued : Result (Unit {0})) (body : Option (List Next)) (w : World)
      → Means body w (create uuid_text cfg r upload enqueued body w)
  unfolding create write_problem
  create-Means enqueued none w = tt
  create-Means enqueued (some parts) w =
      let (files, refusal, w') = read_files uuid_text cfg upload parts w in
      go_on parts enqueued files refusal w w' (read_files-db uuid_text cfg upload parts w)
        (read_files-accepts uuid_text cfg upload parts w)
        (read_files-Reading uuid_text cfg upload parts w)

  pub create-Taken :
      (enqueued : Result (Unit {0})) (body : Option (List Next)) (w w' : World) {code : ℕ}
      {answer : CreateUploadResponse}
      → create uuid_text cfg r upload enqueued body w ≡ (json code answer, w')
      → Taken body w (json code answer, w')
  create-Taken enqueued body w w' h = subst (Means body w) h (create-Means enqueued body w)
