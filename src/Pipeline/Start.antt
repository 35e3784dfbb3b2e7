-- ===== src/Pipeline/Start.antt =====
-- internal/pipeline/pipeline.go: building the pipeline, queueing an upload and running the worker. The saga's `Start`
-- and the worker pool's `Run` are the queue library's: what they answer are arguments.
use bankstmt_analyzer.Prelude.{Bool, true, false, List, ◌++◌, if◌then◌else◌}
use bankstmt_analyzer.Text.{Bytes, codes, is_empty}
use bankstmt_analyzer.Go.{Error, plain, wrap, Result, ok, err}
use bankstmt_analyzer.Config.{QueueConfig, WorkerConfig}
use bankstmt_analyzer.Db.{Uuid}
use bankstmt_analyzer.Pipeline.Scrub.{Scrubber, new_scrubber}
use bankstmt_analyzer.Pipeline.Steps.{State}

-- The collaborators that `Deps.validate` looks at: whether each is there.
pub record Deps : Type 0 where
  pub broker : Bool
  pub store : Bool
  pub blobs : Bool
  pub ocr : Bool
  pub llm : Bool
  pub logger : Bool
  pub queue : QueueConfig
  pub worker : WorkerConfig
  pub secrets : List Bytes

abbrev need : Bool → Bytes → Result (Unit {0}) → Result (Unit {0})
need true name rest = rest
need false name rest = err (plain (codes "pipeline: Deps." ++ (name ++ codes " is required")))

-- `Deps.validate`
unfoldable pub validate_deps : Deps → Result (Unit {0})
validate_deps d = need d.broker (codes "Broker") (
    need d.store (codes "Store") (
      need d.blobs (codes "Blobs") (
        need d.ocr (codes "OCR") (
          need d.llm (codes "LLM") (
            need d.logger (codes "Logger") (
              if is_empty d.queue.name
              then err (plain (codes "pipeline: Deps.Queue.Name is required"))
              else ok tt))))))

-- `Pipeline`: what it keeps of its collaborators for itself.
pub record Pipeline : Type 0 where
  pub scrubber : Scrubber
  pub queue_name : Bytes
  pub worker : WorkerConfig

-- `New`
unfoldable pub new_pipeline : Deps → Result Pipeline
unfolding validate_deps new_scrubber
new_pipeline d = elim (validate_deps d) [
  | err e ↦ err e
  | ok _ ↦
      ok
        (record { scrubber = new_scrubber d.secrets; queue_name = d.queue.name; worker = d.worker })
]

-- `Enqueue`: a saga is started for the upload, with no analysis yet (the zero uuid).
unfoldable pub enqueue : (Uuid → Bytes) → (State → Result Bytes) → Uuid → Result (Unit {0})
enqueue uuid_text start upload = elim (start (record { upload_id = upload; analysis_id = 0 })) [
  | err e ↦ err (wrap (codes "pipeline: start saga for upload " ++ uuid_text upload) e)
  | ok saga_id ↦ ok tt
]

-- How the worker pool's `Run` ends: without an error, since its context was cancelled, or with another error.
pub data PoolEnd : Type 0 where
  drained cancelled : PoolEnd
  broken : Error → PoolEnd

-- `Run`
unfoldable pub run_worker : PoolEnd → Result (Unit {0})
run_worker drained = ok tt
run_worker cancelled = ok tt
run_worker (broken e) = err (wrap (codes "pipeline: worker pool") e)
