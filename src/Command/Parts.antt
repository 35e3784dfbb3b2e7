-- ===== src/Command/Parts.antt =====
-- The parts that `run` (cmd/api/main.go) puts together: the blob store, and the pipeline with its clients.
use bankstmt_analyzer.Prelude.{true, ◌++◌, if◌then◌else◌}
use bankstmt_analyzer.Text.{Bytes, codes, bytes_eq, quote}
use bankstmt_analyzer.Go.{plain, Result, ok, err}
use bankstmt_analyzer.Go.Results.{◌>>◌}
use bankstmt_analyzer.Config.{Config, backend_local, backend_s3, secrets}
use bankstmt_analyzer.Llm.Client
use bankstmt_analyzer.Ocr
use bankstmt_analyzer.Pipeline.Start.{Pipeline, new_pipeline}
use bankstmt_analyzer.Storage.Local.{new_local}
use bankstmt_analyzer.Storage.S3.Open.{S3, new_s3}

-- A store that was built, less the store itself.
abbrev pub forget : {A : Type 0} → Result A → Result (Unit {0})
forget (ok _) = ok tt
forget (err e) = err e

-- `newBlobStore`
unfoldable pub new_blob_store :
    Result (Unit {0})
    → (S3 → Result (Unit {0}))
    → Result Bytes
    → Result (Unit {0})
    → Config
    → Result (Unit {0})
unfolding bytes_eq new_s3 new_local
new_blob_store loaded head_bucket absolute made cfg =
    if bytes_eq cfg.storage.backend backend_s3
    then forget (new_s3 cfg.s3 loaded head_bucket)
    else if bytes_eq cfg.storage.backend backend_local
    then forget (new_local cfg.storage_dir absolute made)
    else err (plain (codes "unsupported storage backend " ++ quote cfg.storage.backend))

-- `newPipeline`
unfoldable pub build_pipeline : (Bytes → Result Bytes) → Bytes → Config → Result Pipeline
unfolding Ocr.new_client Client.new_client new_pipeline secrets
build_pipeline url_path system_prompt cfg = do
  Ocr.new_client cfg.ocr
  Client.new_client url_path cfg.open_ai system_prompt
  new_pipeline (record {
    broker = true;
    store = true;
    blobs = true;
    ocr = true;
    llm = true;
    logger = true;
    queue = cfg.queue;
    worker = cfg.worker;
    secrets = secrets cfg;
  })
