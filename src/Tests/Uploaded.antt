-- ===== src/Tests/Uploaded.antt =====
-- One upload from the request to its status.
use bankstmt_analyzer.Prelude.{◌≡◌, refl, arith, some, List, [], ◌∷◌}
use bankstmt_analyzer.Text.{Bytes, codes}
use bankstmt_analyzer.Text.Space.{trim_space}
use bankstmt_analyzer.Go.{Result, ok}
use bankstmt_analyzer.Db.{pending}
use bankstmt_analyzer.World.{World, find_blob}
use bankstmt_analyzer.Http.Problem.{Problem, Response, problem, json, new_problem}
use bankstmt_analyzer.Http.Uploads.Kept.{IsStored}
use bankstmt_analyzer.Http.Uploads.Orphans.{create-cleans_up}
use bankstmt_analyzer.Http.Status.{UploadStatusResponse, status}
use bankstmt_analyzer.Http.Uploads.{Next, part}
use bankstmt_analyzer.Http.Uploads.Create.{CreateUploadResponse, create}
use bankstmt_analyzer.Llm.{Statement}
use bankstmt_analyzer.Ocr
use bankstmt_analyzer.Ocr.{Pages}
use bankstmt_analyzer.Pipeline.Convert.{build_analysis}
use bankstmt_analyzer.Pipeline.Scrub.{Scrubber, new_scrubber}
use bankstmt_analyzer.Pipeline.Steps.{steps}
use bankstmt_analyzer.Pipeline.Steps.Progress.{Answers}
use bankstmt_analyzer.Pipeline.Runs.Completes.{Passes}
use bankstmt_analyzer.Pipeline.Runs.Uploaded.{Reads, ShowsCompleted, create-completes}
use bankstmt_analyzer.Tests.Data.{two_uploads, world, limits, pdf_part, uuid_text, request}
use bankstmt_analyzer.Tests.Http.{parse}
use bankstmt_analyzer.Tests.Pipeline.{scan}
use bankstmt_analyzer.Tests.Runs.{value}
use bankstmt_analyzer.Tests.Steps.{reply, answer}

abbrev body : List Next
body = part pdf_part ∷ []

-- The request creates upload 3.
abbrev outcome : Response CreateUploadResponse × World
outcome = create uuid_text limits request 3 (ok tt) (some body) (world two_uploads)

abbrev accepted : Response CreateUploadResponse
accepted = json 202 (record { id = 3; status = pending })

is_created : outcome ≡ (accepted, outcome.1)
unfolding create
is_created = refl

-- The OCR service sees the same page in any document.
abbrev one_page : Bytes → Result Pages
one_page _ = ok (record { index = 0; markdown = codes "Rent" } ∷ [])

one_page-Reads : (document : Bytes) → Reads one_page document
unfolding trim_space Ocr.markdown
one_page-Reads document = record {
  pages = record { index = 0; markdown = codes "Rent" } ∷ [];
  answer = refl;
  text = refl;
}

replies_convert : (s : Statement) (ss : List Statement) → Answers answer scan 12 3 (s ∷ ss)
unfolding build_analysis
replies_convert s ss = record {
  reply = reply;
  new = value (build_analysis scan 12 3 reply);
  replied = refl;
  converted = refl;
}

abbrev scrubber : Scrubber
unfolding new_scrubber
scrubber = new_scrubber []

create-completes_example :
    (w : World) × Passes
      (steps scrubber one_page answer scan 12)
      (record { upload_id = 3; analysis_id = 0 })
      outcome.1
      (record { upload_id = 3; analysis_id = 12 })
      w
    × (shown : UploadStatusResponse) × (status uuid_text parse request (3 ∷ []) w.db
        ≡ (json 200 shown, w.db))
    × ShowsCompleted shown
unfolding create
create-completes_example =
    create-completes uuid_text parse limits request 3 (ok tt) (some body) (world two_uploads)
      outcome.1 scrubber one_page answer scan 12 (3 ∷ []) is_created refl
      (record { quiet = refl; reached = refl; stored = refl }) one_page-Reads replies_convert refl
      refl

-- The part is too large: the request is refused.
abbrev large : Response CreateUploadResponse × World
large =
    create uuid_text (record limits { max_file_bytes = 7 }) request 3 (ok tt) (some body)
      (world two_uploads)

abbrev refusal : Response CreateUploadResponse → Problem
refusal (problem p) = p
refusal (json code answer) = new_problem 200 []

is_refused : large ≡ (problem (refusal large.0), large.1)
unfolding create
is_refused = refl

-- What was stored before still is.
other_blob : IsStored (codes "k") large.1.blobs
unfolding create find_blob
other_blob = (codes "%PDF-1.7", refl)

create-cleans_up_example : IsStored (codes "k") (world two_uploads).blobs
unfolding create
create-cleans_up_example =
    create-cleans_up uuid_text (record limits { max_file_bytes = 7 }) request 3 (ok tt) (some body)
      (world two_uploads) refl is_refused (ground arith) (codes "k") other_blob
