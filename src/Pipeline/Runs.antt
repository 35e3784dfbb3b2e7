-- ===== src/Pipeline/Runs.antt =====
-- Runs of the program as the queue drives them. The queue's runtime decides when a step runs, how often it is
-- tried again, when it gives up, and what it calls then; nothing is assumed of it but that it calls the steps of
-- `steps` (internal/pipeline/pipeline.go), their compensations and the two hooks. Meanwhile uploads are recorded
-- (internal/http/uploads.go).
pub mod Completes
pub mod Uploaded
use bankstmt_analyzer.Prelude.{refl, Option, some, List, In, All, ◌++◌}
use bankstmt_analyzer.Text.{Bytes, codes}
use bankstmt_analyzer.Go.{Result}
use bankstmt_analyzer.Db.{Uuid, failed, Numeric}
use bankstmt_analyzer.Db.Store.{NewUploadFile, create_upload_with_files}
use bankstmt_analyzer.Db.Store.Reasons.{
  Agrees, create_upload_with_files-Keeps, set_upload_status-Keeps,
}
use bankstmt_analyzer.World.{World, query}
use bankstmt_analyzer.Http.Uploads.Create.{mark_unqueued, unqueued_reason}
use bankstmt_analyzer.Llm
use bankstmt_analyzer.Llm.{Statement}
use bankstmt_analyzer.Ocr.{Pages}
use bankstmt_analyzer.Pipeline.Scrub.{Scrubber, message}
use bankstmt_analyzer.Pipeline.Steps.{
  State, SagaStep, steps, delete_analysis, instrument, on_failed, on_compensation_failed,
}
use bankstmt_analyzer.Pipeline.Steps.Reasons.{
  Agreed, steps-Keeps, instrument-Keeps, delete_analysis-Keeps, mark_failed-Agreed,
}

-- What happens to the world: an upload is recorded, or could not be queued; a step runs on a payload, its
-- compensation runs, or a hook is called. The clients and the fresh id are others each time.
pub data Event : World → World → Type 0 where
  recorded :
      (upload : Uuid) (files : List NewUploadFile) (w : World)
      → Event w (query (create_upload_with_files upload files) w).1
  unqueued : (upload : Uuid) (w : World) → Event w (mark_unqueued upload w)
  ran :
      (s : Scrubber) (ocr : Bytes → Result Pages) (llm : List Statement → Result Llm.Response)
      (scan : Bytes → Result Numeric) (new_id : Uuid) (step : SagaStep) (state : State) (w : World)
      → In step (steps s ocr llm scan new_id)
      → Event w (step.run state w).1
  compensated :
      (s : Scrubber) (state : State) (w : World) → Event w (instrument s delete_analysis state w).1
  gave_up :
      (s : Scrubber) (state : State) (step : Bytes) (cause : Option Bytes) (w : World)
      → Event w (on_failed s state step cause w)
  rollback_failed :
      (s : Scrubber) (state : State) (step : Bytes) (cause : Option Bytes) (w : World)
      → Event w (on_compensation_failed s state step cause w)

-- Any number of events.
pub data Run : World → World → Type 0 where
  still : {w : World} → Run w w
  next : {u v w : World} → Event u v → Run v w → Run u w

Event-Agreed : {v w : World} → Event v w → Agreed v → Agreed w
unfolding mark_unqueued on_failed on_compensation_failed
Event-Agreed (recorded upload files w) h =
    (create_upload_with_files-Keeps upload files).after w.db h
Event-Agreed (unqueued upload w) h =
    (set_upload_status-Keeps failed (some unqueued_reason) upload refl).after w.db h
Event-Agreed (ran s ocr llm scan new_id step state w i) h =
    (steps-Keeps s ocr llm scan new_id step i state).after w h
Event-Agreed (compensated s state w) h =
    (instrument-Keeps s delete_analysis state (delete_analysis-Keeps state)).after w h
Event-Agreed (gave_up s state step cause w) h =
    mark_failed-Agreed state (step ++ (codes ": " ++ message s cause)) w h
Event-Agreed (rollback_failed s state step cause w) h =
    mark_failed-Agreed state (step ++ (codes ": rollback failed: " ++ message s cause)) w h

-- Whatever uploads are recorded and however the queue runs, repeats, gives up and rolls back the steps of their
-- sagas, if at first every upload had a failure reason exactly if it had failed, so it is afterwards.
pub Run-Agreed : {v w : World} → Run v w → All Agrees v.db.uploads → All Agrees w.db.uploads
Run-Agreed still h = h
Run-Agreed (next e rest) h = Run-Agreed rest (Event-Agreed e h)
