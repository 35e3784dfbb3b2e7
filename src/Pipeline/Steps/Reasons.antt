-- ===== src/Pipeline/Steps/Reasons.antt =====
-- The steps and hooks of internal/pipeline/steps.go and pipeline.go keep it that an upload has a failure reason
-- exactly if it has failed.
use bankstmt_analyzer.Prelude.{
  ◌≡◌, refl, Bool, true, false, none, some, List, [], ◌∷◌, ◌++◌, arith, if◌then◌else◌, In, inl, inr,
}
use bankstmt_analyzer.Text.{Bytes, codes, quote, is_empty}
use bankstmt_analyzer.Text.Space.{trim_space}
use bankstmt_analyzer.Go.{plain, Result, ok}
use bankstmt_analyzer.Go.Monad.{Exec, pure}
use bankstmt_analyzer.Go.Keeps.{
  Keeps, lift-Keeps, context-Keeps, >>=-Keeps, modify-Keeps, raise_if-Keeps,
}
use bankstmt_analyzer.Db.{Uuid, processing, completed, failed, UploadFile, Numeric}
use bankstmt_analyzer.Db.Queries.{
  Query, set_upload_status, list_upload_files, set_upload_file_ocr, delete_analysis_by_upload,
}
use bankstmt_analyzer.Db.Store.{replace_analysis, to_int32}
use bankstmt_analyzer.Db.Store.Reasons.{
  IsAgreed, set_upload_status-Keeps, list_upload_files-Keeps, set_upload_file_ocr-Keeps,
  delete_analysis_by_upload-Keeps, replace_analysis-Keeps,
}
use bankstmt_analyzer.World.{World, query, get_blob, reach}
use bankstmt_analyzer.Ocr
use bankstmt_analyzer.Ocr.{Pages}
use bankstmt_analyzer.Llm
use bankstmt_analyzer.Llm.{Statement}
use bankstmt_analyzer.Pipeline.Scrub.{Scrubber, truncate, max_failure_reason_bytes}
use bankstmt_analyzer.Pipeline.Convert.{build_analysis}
use bankstmt_analyzer.Pipeline.Steps.{
  State, Step, mark_processing, mark_completed, has_ocr, read_blob, submit, extract_one,
  extract_files, run_ocr, statements, analyze, delete_analysis, instrument, mark_failed, SagaStep,
  steps,
}

abbrev pub Agreed : World → Type 0
Agreed w = IsAgreed w.db

query-Keeps : {A : Type 0} (q : Query A) → Keeps IsAgreed q → Keeps Agreed (query q)
query-Keeps q h = record { after = λ w i. h.after w.db i }

-- A call that does not reach the database.
away-Keeps : {A : Type 0} (q : Exec World A) → ((w : World) → (q w).1.db ≡ w.db) → Keeps Agreed q
away-Keeps q same = record { after = λ w i. rw (same w) i }

reach-db : (w : World) → (reach w).1.db ≡ w.db
unfolding reach
reach-db w = ground arith

get_blob-db : (key : Bytes) (w : World) → (get_blob key w).1.db ≡ w.db
unfolding get_blob reach
get_blob-db key w = ground arith

read_blob-Keeps : (key : Bytes) → Keeps Agreed (read_blob key)
unfolding read_blob
read_blob-Keeps key =
    >>=-Keeps Agreed
      (context-Keeps Agreed (codes "open stored file")
        (away-Keeps (get_blob key) (get_blob-db key)))
      λ body.
        >>=-Keeps Agreed
          (context-Keeps Agreed (codes "read stored file") (away-Keeps reach reach-db))
          λ _. lift-Keeps Agreed (ok body)

mark_processing-Keeps : (state : State) → Keeps Agreed (mark_processing state)
unfolding mark_processing
mark_processing-Keeps state =
    >>=-Keeps Agreed
      (context-Keeps Agreed (codes "set status to processing") (
        query-Keeps (set_upload_status processing none state.upload_id)
          (set_upload_status-Keeps processing none state.upload_id refl)))
      λ _. lift-Keeps Agreed (ok state)

mark_completed-Keeps : (state : State) → Keeps Agreed (mark_completed state)
unfolding mark_completed
mark_completed-Keeps state =
    >>=-Keeps Agreed
      (context-Keeps Agreed (codes "set status to completed") (
        query-Keeps (set_upload_status completed none state.upload_id)
          (set_upload_status-Keeps completed none state.upload_id refl)))
      λ _. lift-Keeps Agreed (ok state)

pub delete_analysis-Keeps : (state : State) → Keeps Agreed (delete_analysis state)
unfolding delete_analysis
delete_analysis-Keeps state =
    >>=-Keeps Agreed
      (context-Keeps Agreed (codes "delete partial analysis") (
        query-Keeps (delete_analysis_by_upload state.upload_id)
          (delete_analysis_by_upload-Keeps state.upload_id)))
      λ _. lift-Keeps Agreed (ok state)

pub mark_failed-Agreed :
    (state : State) (reason : Bytes) (w : World) → Agreed w → Agreed (mark_failed state reason w)
unfolding mark_failed
mark_failed-Agreed state reason w h =
    (set_upload_status-Keeps failed (some (truncate reason max_failure_reason_bytes))
        state.upload_id refl).after
      w.db h

module _ (ocr : Bytes → Result Pages) where
  submit-Keeps : (pdf : Bytes) → Keeps Agreed (submit ocr pdf)
  unfolding submit
  submit-Keeps pdf =
      >>=-Keeps Agreed
        (modify-Keeps Agreed (λ w. record w { ocr_requests = w.ocr_requests ++ pdf ∷ [] }) λ w h. h)
        λ _. lift-Keeps Agreed (ocr pdf)

  extract_one-Keeps : (file : UploadFile) → Keeps Agreed (extract_one ocr file)
  unfolding extract_one
  extract_one-Keeps file =
      let name = codes "file " ++ quote file.filename in
      >>=-Keeps Agreed (context-Keeps Agreed name (read_blob-Keeps file.storage_key)) λ pdf.
        >>=-Keeps Agreed (context-Keeps Agreed name (submit-Keeps pdf)) λ pages.
          >>=-Keeps Agreed
            (raise_if-Keeps Agreed (is_empty (trim_space (Ocr.markdown pages))) (
              plain (
                codes "file " ++ (quote file.filename ++ codes ": the document produced no text"))))
            λ _. context-Keeps Agreed (codes "store OCR output for " ++ quote file.filename) (
              query-Keeps
                (set_upload_file_ocr (Ocr.markdown pages) (to_int32 (Ocr.page_count pages)) file.id)
                (set_upload_file_ocr-Keeps (Ocr.markdown pages) (to_int32 (Ocr.page_count pages))
                  file.id))

  extract_files-Keeps : (files : List UploadFile) → Keeps Agreed (extract_files ocr files)
  unfolding extract_files
  extract_files-Keeps [] = lift-Keeps Agreed (ok tt)
  extract_files-Keeps (file ∷ files) =
      >>=-Keeps Agreed (one_file (has_ocr file)) λ _. extract_files-Keeps files
    where
      one_file : (b : Bool) → Keeps Agreed (if b then pure tt else extract_one ocr file)
      one_file true = lift-Keeps Agreed (ok tt)
      one_file false = extract_one-Keeps file

  run_ocr-Keeps : (state : State) → Keeps Agreed (run_ocr ocr state)
  unfolding run_ocr
  run_ocr-Keeps state =
      >>=-Keeps Agreed
        (context-Keeps Agreed (codes "list upload files") (
          query-Keeps (list_upload_files state.upload_id)
            (list_upload_files-Keeps state.upload_id)))
        λ files.
          >>=-Keeps Agreed (raise_if-Keeps Agreed _ _)
            λ _. >>=-Keeps Agreed (extract_files-Keeps files) λ _. lift-Keeps Agreed (ok state)

module _ (llm : List Statement → Result Llm.Response) (scan : Bytes → Result Numeric)
    (new_id : Uuid) where
  analyze-Keeps : (state : State) → Keeps Agreed (analyze llm scan new_id state)
  unfolding analyze
  analyze-Keeps state =
      >>=-Keeps Agreed
        (context-Keeps Agreed (codes "list upload files") (
          query-Keeps (list_upload_files state.upload_id)
            (list_upload_files-Keeps state.upload_id)))
        λ files. >>=-Keeps Agreed (lift-Keeps Agreed (statements files)) λ ss.
          >>=-Keeps Agreed (raise_if-Keeps Agreed _ _) λ _.
            >>=-Keeps Agreed
              (context-Keeps Agreed (codes "analyse statements") (lift-Keeps Agreed (llm ss)))
              λ response.
                >>=-Keeps Agreed
                  (lift-Keeps Agreed (build_analysis scan new_id state.upload_id response))
                  λ params.
                    >>=-Keeps Agreed
                      (context-Keeps Agreed (codes "store analysis")
                        (query-Keeps (replace_analysis params) (replace_analysis-Keeps params)))
                      λ row. lift-Keeps Agreed (ok (record state { analysis_id = row.id }))

pub instrument-Keeps :
    (s : Scrubber) (step : Step) (state : State)
    → Keeps Agreed (step state)
    → Keeps Agreed (instrument s step state)
unfolding instrument
instrument-Keeps s step state h = record { after = h.after }

module _ (s : Scrubber) (ocr : Bytes → Result Pages) (llm : List Statement → Result Llm.Response)
    (scan : Bytes → Result Numeric) (new_id : Uuid) where
  -- Every step of the saga.
  pub steps-Keeps :
      (step : SagaStep)
      → In step (steps s ocr llm scan new_id)
      → (state : State) → Keeps Agreed (step.run state)
  unfolding steps
  steps-Keeps step (inl e) state =
      rw e (instrument-Keeps s mark_processing state (mark_processing-Keeps state))
  steps-Keeps step (inr (inl e)) state =
      rw e (instrument-Keeps s (run_ocr ocr) state (run_ocr-Keeps ocr state))
  steps-Keeps step (inr (inr (inl e))) state =
      rw e
        (instrument-Keeps s (analyze llm scan new_id) state (analyze-Keeps llm scan new_id state))
  steps-Keeps step (inr (inr (inr (inl e)))) state =
      rw e (instrument-Keeps s mark_completed state (mark_completed-Keeps state))
  steps-Keeps step (inr (inr (inr (inr i)))) state = absurd i
