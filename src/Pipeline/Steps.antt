-- ===== src/Pipeline/Steps.antt =====
-- internal/pipeline/steps.go, and the wrapping and the hooks of pipeline.go. Log lines are left out.
pub mod Errors
pub mod Resume
pub mod Analysed
pub mod Reasons
pub mod Marks
pub mod Progress
use bankstmt_analyzer.Prelude.{
  Bool, true, false, not, Option, none, some, List, [], ◌∷◌, ◌++◌, if◌then◌else◌,
}
use bankstmt_analyzer.Text.{Bytes, codes, is_empty, quote}
use bankstmt_analyzer.Text.Space.{trim_space}
use bankstmt_analyzer.Go.{Error, plain, marked, wrap, error_text, Result, ok, err}
use bankstmt_analyzer.Go.Monad.{Exec, pure, lift, modify, raise_if, context, ◌>>=◌, ◌>>◌}
use bankstmt_analyzer.Db.{Uuid, processing, completed, failed, UploadFile, Numeric}
use bankstmt_analyzer.Db.Queries.{
  set_upload_status, list_upload_files, set_upload_file_ocr, delete_analysis_by_upload,
}
use bankstmt_analyzer.Db.Store.{replace_analysis, to_int32}
use bankstmt_analyzer.World.{World, query, get_blob, reach}
use bankstmt_analyzer.Ocr
use bankstmt_analyzer.Ocr.{Pages}
use bankstmt_analyzer.Llm
use bankstmt_analyzer.Llm.{Statement}
use bankstmt_analyzer.Pipeline.Scrub.{Scrubber, message, truncate, max_failure_reason_bytes}
use bankstmt_analyzer.Pipeline.Convert.{build_analysis}

-- The saga's payload.
pub record State : Type 0 where
  pub upload_id : Uuid
  pub analysis_id : Uuid

abbrev pub Step : Type 0
Step = State → Exec World State

unfoldable pub mark_processing : Step
unfolding set_upload_status
mark_processing state = do
  context (codes "set status to processing")
      (query (set_upload_status processing none state.upload_id))
  pure state

unfoldable pub mark_completed : Step
unfolding set_upload_status
mark_completed state = do
  context (codes "set status to completed")
      (query (set_upload_status completed none state.upload_id))
  pure state

-- `hasOCR`
unfoldable pub has_ocr : UploadFile → Bool
unfolding trim_space
has_ocr file = elim file.ocr_markdown [
  | none ↦ false
  | some markdown ↦ not (is_empty (trim_space markdown))
]

-- `readBlob`: the file is opened, then read in full.
unfoldable pub read_blob : Bytes → Exec World Bytes
unfolding get_blob reach
read_blob key = do
  body ← context (codes "open stored file") (get_blob key)
  context (codes "read stored file") reach
  pure body

-- The OCR client is `ocr`; what it is sent is recorded.
module _ (ocr : Bytes → Result Pages) where
  submit : Bytes → Exec World Pages
  submit pdf = do
    modify (λ w. record w { ocr_requests = w.ocr_requests ++ pdf ∷ [] })
    lift (ocr pdf)

  unfoldable pub extract_one : UploadFile → Exec World (Unit {0})
  unfolding read_blob submit Ocr.markdown set_upload_file_ocr
  extract_one file = do
    pdf ← context (codes "file " ++ quote file.filename) (read_blob file.storage_key)
    pages ← context (codes "file " ++ quote file.filename) (submit pdf)
    let text : Bytes = Ocr.markdown pages
    raise_if (is_empty (trim_space text))
        (plain (codes "file " ++ (quote file.filename ++ codes ": the document produced no text")))
    context (codes "store OCR output for " ++ quote file.filename)
        (query (set_upload_file_ocr text (to_int32 (Ocr.page_count pages)) file.id))

  -- The loop of `runOCR`.
  unfoldable pub extract_files : List UploadFile → Exec World (Unit {0})
  unfolding has_ocr extract_one
  extract_files [] = pure tt
  extract_files (file ∷ files) = do
    (if has_ocr file then pure tt else extract_one file)
    extract_files files

  unfoldable pub run_ocr : Step
  unfolding list_upload_files extract_files
  run_ocr state = do
    files ← context (codes "list upload files") (query (list_upload_files state.upload_id))
    raise_if (elim files [ [] ↦ true | _ ∷ _ ↦ false ])
        (plain (codes "upload has no files to process"))
    extract_files files
    pure state

-- One round of the loop of `analyze`.
unfoldable pub statement_of : UploadFile → Result Statement
unfolding has_ocr
statement_of file =
    let missing : Result Statement =
      err (plain (codes "file " ++ (quote file.filename ++ codes " has no OCR output"))) in
    elim file.ocr_markdown [
      | none ↦ missing
      | some text ↦
          if has_ocr file
          then ok (record { filename = file.filename; markdown = text })
          else missing
    ]

add_statement : Statement → Result (List Statement) → Result (List Statement)
add_statement s (ok ss) = ok (s ∷ ss)
add_statement s (err e) = err e

-- The loop of `analyze`: the statements of all files, or the error of the first that has none.
unfoldable pub statements : List UploadFile → Result (List Statement)
unfolding statement_of add_statement
statements [] = ok []
statements (file ∷ files) =
    let rest = statements files in
    elim (statement_of file) [ ok s ↦ add_statement s rest | err e ↦ err e ]

-- The LLM client is `llm`, `pgtype.Numeric`'s `Scan` is `scan`, and `new_id` is what `uuid.New` gives.
module _ (llm : List Statement → Result Llm.Response) (scan : Bytes → Result Numeric)
    (new_id : Uuid) where
  unfoldable pub analyze : Step
  unfolding list_upload_files statements build_analysis replace_analysis
  analyze state = do
    files ← context (codes "list upload files") (query (list_upload_files state.upload_id))
    ss ← lift (statements files)
    raise_if (elim ss [ [] ↦ true | _ ∷ _ ↦ false ])
        (plain (codes "upload has no statements to analyse"))
    response ← context (codes "analyse statements") (lift (llm ss))
    params ← lift (build_analysis scan new_id state.upload_id response)
    row ← context (codes "store analysis") (query (replace_analysis params))
    pure (record state { analysis_id = row.id })

unfoldable pub delete_analysis : Step
unfolding delete_analysis_by_upload
delete_analysis state = do
  context (codes "delete partial analysis") (query (delete_analysis_by_upload state.upload_id))
  pure state

-- `isRetryable`, which the log line of a failed step records
unfoldable pub is_retryable : Error → Bool
is_retryable (marked retry text) = retry
is_retryable (wrap text cause) = is_retryable cause
is_retryable _ = true

-- The error that `instrument` passes on.
abbrev scrubbed : {A : Type 0} → Scrubber → Result A → Result A
scrubbed s (ok a) = ok a
scrubbed s (err e) = err (plain (message s (some (error_text e))))

-- `instrument`
unfoldable pub instrument : Scrubber → Step → Step
unfolding message error_text
instrument s step state w = let (r, w') = step state w in (scrubbed s r, w')

-- `markFailed`; a write that fails is only logged.
unfoldable pub mark_failed : State → Bytes → World → World
unfolding truncate set_upload_status
mark_failed state reason w =
    (query
      (set_upload_status failed (some (truncate reason max_failure_reason_bytes)) state.upload_id)
      w).1

-- `onFailed`; `cause` is the text of the error, if there is one.
unfoldable pub on_failed : Scrubber → State → Bytes → Option Bytes → World → World
unfolding mark_failed message
on_failed s state failed_step cause =
    mark_failed state (failed_step ++ (codes ": " ++ message s cause))

-- `onCompensationFailed`
unfoldable pub on_compensation_failed : Scrubber → State → Bytes → Option Bytes → World → World
unfolding mark_failed message
on_compensation_failed s state step cause =
    mark_failed state (step ++ (codes ": rollback failed: " ++ message s cause))

-- `saga.Step`
pub record SagaStep : Type 0 where
  pub name : Bytes
  pub run : Step
  pub compensate : Option Step

-- `steps`: the clients are those that answer while the run goes on.
module _ (s : Scrubber) (ocr : Bytes → Result Pages) (llm : List Statement → Result Llm.Response)
    (scan : Bytes → Result Numeric) (new_id : Uuid) where
  unfoldable pub steps : List SagaStep
  unfolding instrument mark_processing run_ocr analyze delete_analysis mark_completed
  steps =
      record {
        name = codes "mark_processing";
        run = instrument s mark_processing;
        compensate = none;
      }
      ∷ record { name = codes "ocr"; run = instrument s (run_ocr ocr); compensate = none }
      ∷ record {
        name = codes "analyze";
        run = instrument s (analyze llm scan new_id);
        compensate = some (instrument s delete_analysis);
      }
      ∷ record {
        name = codes "mark_completed";
        run = instrument s mark_completed;
        compensate = none;
      }
      ∷ []
