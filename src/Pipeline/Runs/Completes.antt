-- ===== src/Pipeline/Runs/Completes.antt =====
-- A run of the steps of internal/pipeline/pipeline.go from the first to the last.
use bankstmt_analyzer.Prelude.{
  ◌≡◌, refl, ◌∙◌, ◌&&◌, true, none, List, [], ◌∷◌, All, ◌==◌, subst, sym,
}
use bankstmt_analyzer.Text.{Bytes}
use bankstmt_analyzer.Go.{Result, ok}
use bankstmt_analyzer.Db.{Uuid, completed, Numeric}
use bankstmt_analyzer.Db.Queries.{any_row, where_rows}
use bankstmt_analyzer.World.{World}
use bankstmt_analyzer.Llm
use bankstmt_analyzer.Llm.{Statement}
use bankstmt_analyzer.Ocr.{Pages}
use bankstmt_analyzer.Pipeline.Scrub.{Scrubber}
use bankstmt_analyzer.Pipeline.Steps.{
  State, Step, SagaStep, instrument, steps, mark_processing, run_ocr, analyze, mark_completed,
}
use bankstmt_analyzer.Pipeline.Steps.Marks.{
  IsRecorded, Says, mark_processing_passes, mark_completed_passes,
}
use bankstmt_analyzer.Pipeline.Steps.Progress.{IsFree, Answers, analyze_passes}
use bankstmt_analyzer.Pipeline.Steps.Resume.Progress.{IsCalm, IsReadable, run_ocr_passes}

-- The steps are taken one after the other, each on what the one before it returned, and none returns an error.
pub data Passes : List SagaStep → State → World → State → World → Type 0 where
  finished : {state : State} {w : World} → Passes [] state w state w
  passed :
      {step : SagaStep} {rest : List SagaStep} {s t u : State} {v w x : World}
      → step.run s v ≡ (ok t, w)
      → Passes rest t w u x
      → Passes (step ∷ rest) s v u x

-- What a run of all steps needs.
pub record IsReady (ocr : Bytes → Result Pages) (llm : List Statement → Result Llm.Response)
    (scan : Bytes → Result Numeric) (new_id : Uuid) (u : Uuid) (w : World) : Type 0 where
  pub calm : IsCalm w.blobs w
  pub recorded : IsRecorded u w.db
  pub some_file : any_row (λ f. f.upload_id == u) w.db.upload_files ≡ true
  pub readable : All (IsReadable ocr w.blobs) (where_rows (λ f. f.upload_id == u) w.db.upload_files)
  pub answers : (s : Statement) (ss : List Statement) → Answers llm scan new_id u (s ∷ ss)
  pub free : IsFree new_id u w.db

instrument-ok :
    (scrubber : Scrubber) (step : Step) (s t : State) (v w : World)
    → step s v ≡ (ok t, w)
    → instrument scrubber step s v ≡ (ok t, w)
unfolding instrument
instrument-ok scrubber step s t v w e = rw e refl

-- As `steps-Passes` says, and no call fails afterwards either.
pub steps-Passes_full :
    (scrubber : Scrubber) (ocr : Bytes → Result Pages) (llm : List Statement → Result Llm.Response)
    (scan : Bytes → Result Numeric) (new_id : Uuid) (state : State) (w : World)
    → IsReady ocr llm scan new_id state.upload_id w
    → (w' : World) × Passes
        (steps scrubber ocr llm scan new_id)
        state
        w
        (record state { analysis_id = new_id })
        w'
      × IsCalm w.blobs w'
      × Says completed none state.upload_id w'.db
      × (any_row (λ a. a.id == new_id && a.upload_id == state.upload_id) w'.db.analyses ≡ true)
unfolding steps
steps-Passes_full scrubber ocr llm scan new_id state w ready =
    let u = state.upload_id in
    let (w₁, e₁, calm₁, known₁, files₁, as₁) =
      mark_processing_passes w.blobs state w ready.calm ready.recorded in
    let (w₂, e₂, texts, calm₂, same) =
      run_ocr_passes ocr state w₁ (subst (λ b. IsCalm b w₁) (sym calm₁.stored) calm₁)
        (rw files₁ ready.some_file) (rw (files₁, calm₁.stored) ready.readable) in
    let (w₃, e₃, calm₃, known₃, there) =
      analyze_passes llm scan new_id state w₁.blobs w₂ calm₂
        (same.owners u ∙ rw files₁ ready.some_file) texts (rw same.uploads known₁)
        (rw (same.analyses, as₁) ready.free) ready.answers in
    let (w₄, e₄, calm₄, says, as₄) =
      mark_completed_passes w₁.blobs (record state { analysis_id = new_id }) w₃ calm₃ known₃ in
    (
      w₄,
      passed (instrument-ok scrubber mark_processing state state w w₁ e₁) (
          passed (instrument-ok scrubber (run_ocr ocr) state state w₁ w₂ e₂) (
            passed
              (instrument-ok scrubber (analyze llm scan new_id) state
                (record state { analysis_id = new_id }) w₂ w₃ e₃)
              (passed
                (instrument-ok scrubber mark_completed (record state { analysis_id = new_id })
                  (record state { analysis_id = new_id }) w₃ w₄ e₄)
                finished))),
      subst (λ b. IsCalm b w₄) calm₁.stored calm₄,
      says,
      rw as₄ there,
    )

-- For a recorded upload with files, each stored and one from which the OCR service reads a text, with a model that
-- answers every list of statements by a reply that can be converted, and with a new id that no analysis of another
-- upload has: when no call of the database or of the blob store fails, all four steps are taken in order, none
-- returns an error, and at the end the upload's row says completed with no failure reason, and the analysis that
-- the payload names is recorded for it.
pub steps-Passes :
    (scrubber : Scrubber) (ocr : Bytes → Result Pages) (llm : List Statement → Result Llm.Response)
    (scan : Bytes → Result Numeric) (new_id : Uuid) (state : State) (w : World)
    → IsReady ocr llm scan new_id state.upload_id w
    → (w' : World) × Passes
        (steps scrubber ocr llm scan new_id)
        state
        w
        (record state { analysis_id = new_id })
        w'
      × Says completed none state.upload_id w'.db
      × (any_row (λ a. a.id == new_id && a.upload_id == state.upload_id) w'.db.analyses ≡ true)
steps-Passes scrubber ocr llm scan new_id state w ready =
    let (w', passed', _, says, there) =
      steps-Passes_full scrubber ocr llm scan new_id state w ready in
    (w', passed', says, there)
