-- ===== src/Http/Uploads/Create.antt =====
-- The handler that takes an upload (internal/http/uploads.go): `create`, `markUnqueued`.
use bankstmt_analyzer.Prelude.{Option, none, some, List}
use bankstmt_analyzer.Text.{Bytes, codes}
use bankstmt_analyzer.Go.{Result, ok, err}
use bankstmt_analyzer.Db.{Uuid, Status, failed, Upload}
use bankstmt_analyzer.Db.Queries.{set_upload_status}
use bankstmt_analyzer.Db.Store.{NewUploadFile, create_upload_with_files}
use bankstmt_analyzer.World.{World, query}
use bankstmt_analyzer.Http.Problem.{
  new_problem, Response, json, RequestInfo, write_problem, write_error, internal,
}
use bankstmt_analyzer.Http.Uploads.{UploadConfig, Next, read_files, discard}

-- `CreateUploadResponse`
pub record CreateUploadResponse : Type 0 where
  pub id : Uuid
  pub status : Status

abbrev pub unqueued_reason : Bytes
unqueued_reason = codes "enqueue: the upload could not be queued for analysis"

-- `markUnqueued`; a failure is only logged.
unfoldable pub mark_unqueued : Uuid → World → World
unfolding set_upload_status
mark_unqueued upload w = (query (set_upload_status failed (some unqueued_reason) upload) w).1

-- The handlers, on a request whose path and id are `r`.
module _ (uuid_text : Uuid → Bytes) (cfg : UploadConfig) (r : RequestInfo) where
  abbrev Reply : Type 0
  Reply = Response CreateUploadResponse × World

  -- The end of `create`, when the upload is recorded: `enqueued` is what the queue answers.
  unfoldable pub queue : Upload → Uuid → Result (Unit {0}) → World → Reply
  unfolding mark_unqueued write_problem new_problem
  queue row upload (err e) w = (
    write_problem r (
        some (
          new_problem 503
            (codes "The upload was stored but could not be queued for analysis. Please retry."))),
    mark_unqueued upload w,
  )
  queue row upload (ok _) w = (json 202 (record { id = row.id; status = row.status }), w)

  -- The recording in `create`, when the files are stored.
  unfoldable pub record_files : Uuid → Result (Unit {0}) → List NewUploadFile → World → Reply
  unfolding create_upload_with_files discard write_error queue
  record_files upload enqueued files w =
      let (row, w') = query (create_upload_with_files upload files) w in
      elim row [
        | err e ↦ (write_error r (internal e), discard files w')
        | ok u ↦ queue u upload enqueued w'
      ]

  -- `create`: `parts` is what the multipart reader gives, if the body is multipart at all.
  unfoldable pub create :
      Uuid → Result (Unit {0}) → Option (List Next) → World → Response CreateUploadResponse × World
  unfolding read_files record_files discard write_problem new_problem
  create upload enqueued none w = (
    write_problem r
        (some (new_problem 400 (codes "The request body must be multipart/form-data."))),
    w,
  )
  create upload enqueued (some parts) w =
      let (files, refusal, w') = read_files uuid_text cfg upload parts w in
      elim refusal [
        | some p ↦ (write_problem r (some p), discard files w')
        | none ↦ record_files upload enqueued files w'
      ]
