-- ===== src/Tests/Steps.antt =====
-- Concrete runs of the steps of internal/pipeline/steps.go and their hooks.
use bankstmt_analyzer.Prelude.{
  ◌≡◌, ◌≤◌, refl, arith, inl, inr, false, some, List, [], ◌∷◌, ◌++◌, length, All,
}
use bankstmt_analyzer.Text.{Bytes, codes, contains}
use bankstmt_analyzer.Text.Space.{trim_space}
use bankstmt_analyzer.Go.{plain, error_text, Result, ok}
use bankstmt_analyzer.Go.Monad.{raise}
use bankstmt_analyzer.World.{World}
use bankstmt_analyzer.Ocr.{Pages}
use bankstmt_analyzer.Llm
use bankstmt_analyzer.Llm.{Statement}
use bankstmt_analyzer.Pipeline.Scrub.{new_scrubber, message}
use bankstmt_analyzer.Pipeline.Scrub.Lines.{InLine}
use bankstmt_analyzer.Pipeline.Steps.{State, Step, instrument, on_failed, run_ocr, analyze}
use bankstmt_analyzer.Pipeline.Steps.Errors.{
  FailedOnly, instrument-hides_secrets, on_failed-records,
}
use bankstmt_analyzer.Pipeline.Steps.Resume.{run_ocr-resumes}
use bankstmt_analyzer.Pipeline.Steps.Analysed.{Analysed, analyze-Analysed}
use bankstmt_analyzer.Tests.Data.{two_uploads, world, scanned}
use bankstmt_analyzer.Tests.Pipeline.{leaky, secrets, secret, secret-IsHideable, paid, scan}

abbrev state : State
state = record { upload_id = 1; analysis_id = 0 }

abbrev failing_step : Step
failing_step _ = raise (plain leaky)

abbrev passed_on : Bytes
passed_on = codes "401: bad key [redacted] given"

instrument-hides_secrets_example :
    (length passed_on ≤ 400) × All InLine passed_on × (contains passed_on secret ≡ false)
unfolding instrument new_scrubber trim_space error_text
instrument-hides_secrets_example =
    instrument-hides_secrets secrets secret failing_step state (world two_uploads)
      {e = plain passed_on} {w' = world two_uploads} (inr (inl refl)) (omega arith)
      secret-IsHideable refl

on_failed-records_example :
    FailedOnly 1
      (codes "ocr" ++ (codes ": " ++ message (new_scrubber secrets) (some leaky)))
      two_uploads.uploads
      (on_failed
        (new_scrubber secrets)
        state
        (codes "ocr")
        (some leaky)
        (world two_uploads)).db.uploads
    × (length (codes "ocr" ++ (codes ": " ++ message (new_scrubber secrets) (some leaky))) ≤ 500)
on_failed-records_example =
    on_failed-records (new_scrubber secrets) state (codes "ocr") (some leaky) (world two_uploads)
      refl (omega arith)

abbrev read_page : Bytes → Result Pages
read_page pdf = ok (record { index = 0; markdown = pdf } ∷ [])

run_ocr-resumes_example :
    (run_ocr read_page state (run_ocr read_page state (world two_uploads)).1).1.ocr_requests
    ≡ (run_ocr read_page state (world two_uploads)).1.ocr_requests
unfolding run_ocr
run_ocr-resumes_example = run_ocr-resumes read_page read_page state (world two_uploads) refl

sent_once : (run_ocr read_page state (world two_uploads)).1.ocr_requests ≡ codes "%PDF-1.7" ∷ []
unfolding run_ocr
sent_once = refl

abbrev pub reply : Llm.Response
reply = record {
  meta = record { currency = codes "EUR"; period_covered = record { start = []; end = [] } };
  analysis = record {
    currency = [];
    period_start = [];
    period_end = [];
    monthly_summary = [];
    category_totals = [];
    recurring_payments = [];
    anomalies = [];
    key_insights = [];
  };
  savings_plan = [];
  chart_data = record { present = []; forecast = [] };
  transactions = paid ∷ [];
  raw = codes "{}";
}

abbrev pub answer : List Statement → Result Llm.Response
answer _ = ok reply

abbrev read_world : World
read_world = world (record two_uploads { upload_files = scanned 100 (some (codes "text")) ∷ [] })

analyze-Analysed_example :
    Analysed 1 read_world.db
      (record state { analysis_id = 12 })
      (analyze answer scan 12 state read_world).1.db
unfolding analyze
analyze-Analysed_example = analyze-Analysed answer scan 12 state read_world (refl, tt) refl
