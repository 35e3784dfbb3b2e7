-- ===== src/Tests/Runs.antt =====
-- Concrete runs: one in which an upload is recorded, its queueing fails, the OCR step of another one fails with an
-- outage and the queue gives up on it, and one that passes all steps.
use bankstmt_analyzer.Prelude.{
  ◌&&◌, ◌==◌, ◌≡◌, refl, inl, inr, true, none, some, List, [], ◌∷◌, All, In, map,
}
use bankstmt_analyzer.Text.{Bytes, codes}
use bankstmt_analyzer.Text.Space.{trim_space}
use bankstmt_analyzer.Go.{plain, Result, ok, err}
use bankstmt_analyzer.Db.{completed, processing, failed, Numeric}
use bankstmt_analyzer.Db.Queries.{any_row}
use bankstmt_analyzer.Db.Store.{NewAnalysis, create_upload_with_files}
use bankstmt_analyzer.Db.Store.Reasons.{Agrees}
use bankstmt_analyzer.World.{World, query, find_blob}
use bankstmt_analyzer.Http.Uploads.Create.{mark_unqueued}
use bankstmt_analyzer.Llm
use bankstmt_analyzer.Llm.{Statement}
use bankstmt_analyzer.Ocr
use bankstmt_analyzer.Ocr.{Pages}
use bankstmt_analyzer.Pipeline.Scrub.{Scrubber, new_scrubber}
use bankstmt_analyzer.Pipeline.Steps.{State, SagaStep, steps, instrument, run_ocr, on_failed}
use bankstmt_analyzer.Pipeline.Steps.Resume.Progress.{IsReadable}
use bankstmt_analyzer.Pipeline.Steps.Marks.{Says}
use bankstmt_analyzer.Pipeline.Steps.Progress.{Answers}
use bankstmt_analyzer.Pipeline.Runs.Completes.{Passes, steps-Passes}
use bankstmt_analyzer.Pipeline.Convert.{build_analysis}
use bankstmt_analyzer.Tests.Pipeline.{scan}
use bankstmt_analyzer.Tests.Steps.{reply, answer}
use bankstmt_analyzer.Pipeline.Runs.{Run, still, next, recorded, unqueued, ran, gave_up, Run-Agreed}
use bankstmt_analyzer.Tests.Data.{second_analysis, scanned, two_uploads, new_file, world}

abbrev unreachable : Bytes → Result Pages
unreachable _ = err (plain (codes "timeout"))

abbrev no_reply : List Statement → Result Llm.Response
no_reply _ = err (plain (codes "timeout"))

abbrev no_amount : Bytes → Result Numeric
no_amount _ = err (plain (codes "amount"))

abbrev start : World
start = world two_uploads

abbrev scrubber : Scrubber
scrubber = new_scrubber []

abbrev first : State
first = record { upload_id = 1; analysis_id = 0 }

abbrev after_upload : World
after_upload = (query (create_upload_with_files 3 (new_file ∷ [])) start).1

abbrev after_refusal : World
after_refusal = mark_unqueued 3 after_upload

abbrev after_ocr : World
after_ocr = (instrument scrubber (run_ocr unreachable) first after_refusal).1

abbrev end : World
end = on_failed scrubber first (codes "ocr") (some (codes "timeout")) after_ocr

abbrev ocr_step : SagaStep
ocr_step = record {
  name = codes "ocr";
  run = instrument scrubber (run_ocr unreachable);
  compensate = none;
}

ocr_step-In : In ocr_step (steps scrubber unreachable no_reply no_amount 12)
unfolding steps
ocr_step-In = inr (inl refl)

abbrev failing_run : Run start end
failing_run = next (recorded 3 (new_file ∷ []) start) (
    next (unqueued 3 after_upload) (
      next (ran scrubber unreachable no_reply no_amount 12 ocr_step first after_refusal ocr_step-In)
        (next (gave_up scrubber first (codes "ocr") (some (codes "timeout")) after_ocr) still)))

Run-Agreed_example : All Agrees end.db.uploads
Run-Agreed_example = Run-Agreed failing_run (refl, (refl, tt))

-- Both uploads that failed are marked, and the third goes on.
statuses : map (λ u. u.status) end.db.uploads ≡ failed ∷ processing ∷ failed ∷ []
unfolding create_upload_with_files mark_unqueued on_failed instrument run_ocr
statuses = refl

abbrev page_of : Bytes → Result Pages
page_of pdf = ok (record { index = 0; markdown = pdf } ∷ [])

scanned-IsReadable : IsReadable page_of start.blobs (scanned 100 none)
unfolding find_blob trim_space Ocr.markdown
scanned-IsReadable = record {
  body = codes "%PDF-1.7";
  pages = record { index = 0; markdown = codes "%PDF-1.7" } ∷ [];
  kept = refl;
  answer = refl;
  text = refl;
}

-- The value of a call that succeeds.
abbrev pub value : Result NewAnalysis → NewAnalysis
value (ok new) = new
value (err _) = second_analysis

read_amount : (s : Statement) (ss : List Statement) → Answers answer scan 12 1 (s ∷ ss)
unfolding build_analysis
read_amount s ss = record {
  reply = reply;
  new = value (build_analysis scan 12 1 reply);
  replied = refl;
  converted = refl;
}

steps-Passes_example :
    (w : World) × Passes
      (steps scrubber page_of answer scan 12)
      first
      start
      (record first { analysis_id = 12 })
      w
    × Says completed none 1 w.db
    × (any_row (λ a. a.id == 12 && a.upload_id == 1) w.db.analyses ≡ true)
steps-Passes_example = steps-Passes scrubber page_of answer scan 12 first start (record {
  calm = record { quiet = refl; reached = refl; stored = refl };
  recorded = refl;
  some_file = refl;
  readable = (scanned-IsReadable, tt);
  answers = read_amount;
  free = refl;
})
