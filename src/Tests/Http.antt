-- ===== src/Tests/Http.antt =====
-- Concrete requests to the handlers of internal/http.
use bankstmt_analyzer.Prelude.{
  ◌+◌, ◌≤◌, if◌then◌else◌, ◌≡◌, refl, arith, Option, none, some, List, [], ◌∷◌,
}
use bankstmt_analyzer.Text.{Bytes, codes, bytes_eq}
use bankstmt_analyzer.Go.{plain, ok, err}
use bankstmt_analyzer.Db.{Uuid}
use bankstmt_analyzer.Db.Store.Atomic.{SameTables}
use bankstmt_analyzer.Http.Problem.{json, status_code}
use bankstmt_analyzer.Http.Uploads.{Next, part, read_files, sanitise_filename}
use bankstmt_analyzer.Http.Uploads.Create.{create}
use bankstmt_analyzer.Http.Uploads.Bounds.{Outcome, read_files-accepts}
use bankstmt_analyzer.Prelude.{All}
use bankstmt_analyzer.Db.Store.{create_upload_with_files}
use bankstmt_analyzer.Http.Uploads.Unqueued.{SaysUnqueued, create-unqueued}
use bankstmt_analyzer.Http.Uploads.Refusals.{create-refuses}
use bankstmt_analyzer.Http.Status.{status}
use bankstmt_analyzer.Http.Status.Answers.{view, status-found}
use bankstmt_analyzer.Http.Window.{MonthWindow, month_of, period_end, resolve_window}
use bankstmt_analyzer.Http.Window.Months.{resolve_window-ordered, resolve_window-months}
use bankstmt_analyzer.Tests.Data.{
  two_uploads, world, limits, pdf_part, uuid_text, request, upload_row,
}

-- Two files where one is allowed.
abbrev two_parts : List Next
two_parts = part pdf_part ∷ part pdf_part ∷ []

read_files-accepts_example :
    Outcome uuid_text limits 3 (read_files uuid_text limits 3 two_parts (world two_uploads))
read_files-accepts_example = read_files-accepts uuid_text limits 3 two_parts (world two_uploads)

create-refuses_example :
    SameTables two_uploads
      (create uuid_text limits request 3 (ok tt) (some two_parts) (world two_uploads)).1.db
unfolding create
create-refuses_example =
    create-refuses uuid_text limits request 3 (ok tt) (some two_parts) (world two_uploads) refl
      (ground arith)

accepts_one :
    status_code
      (create uuid_text limits request 3 (ok tt) (some (part pdf_part ∷ [])) (world two_uploads)).0
    ≡ 202
unfolding create
accepts_one = refl

queue_full :
    status_code
      (create uuid_text limits request 3
        (err (plain []))
        (some (part pdf_part ∷ []))
        (world two_uploads)).0
    ≡ 503
unfolding create
queue_full = refl

windows_path : sanitise_filename (codes "C:\\docs\\april.pdf") ≡ codes "april.pdf"
unfolding sanitise_filename
windows_path = refl

-- An id is written as the one byte that is its number.
abbrev pub parse : Bytes → Option Uuid
parse [] = none
parse (c ∷ s) = some c

status-found_example :
    status uuid_text parse request (1 ∷ []) two_uploads
    ≡ (json 200 (view uuid_text parse request 1 (upload_row 1) two_uploads), two_uploads)
status-found_example =
    status-found uuid_text parse request (1 ∷ []) two_uploads 1 (upload_row 1) refl refl refl

-- The parameter `to` alone is given.
abbrev to_march : Bytes → Bytes
to_march name = if bytes_eq name (codes "to") then codes "2024-03" else []

abbrev quarter : MonthWindow
quarter = record { from = month_of 2024 1; to = month_of 2024 3 }

resolve_window-ordered_example : month_of 2024 1 ≤ month_of 2024 3
unfolding resolve_window bytes_eq
resolve_window-ordered_example =
    resolve_window-ordered to_march (month_of 2024 6) {w = quarter} refl

resolve_window-months_example : (1 ≤ 3) × (3 ≤ 12) × (month_of 2024 1 + 3 ≡ month_of 2024 3 + 1)
unfolding resolve_window bytes_eq
resolve_window-months_example =
    resolve_window-months to_march (month_of 2024 6) {w = quarter} {n = 3} (omega arith) refl refl
      refl

ends_on_leap_day :
    period_end (record { from = month_of 2023 12; to = month_of 2024 2 })
    ≡ record { year = 2024; month = 2; day = 29 }
unfolding period_end
ends_on_leap_day = refl

abbrev one_part : List Next
one_part = part pdf_part ∷ []

create-unqueued_example :
    (status_code
        (create uuid_text limits request 3 (err (plain [])) (some one_part) (world two_uploads)).0
      ≡ 503)
    × All
        (SaysUnqueued 3)
        (create uuid_text limits request 3
          (err (plain []))
          (some one_part)
          (world two_uploads)).1.db.uploads
unfolding read_files create_upload_with_files
create-unqueued_example =
    create-unqueued uuid_text limits request 3 (plain []) one_part (world two_uploads) refl refl
      refl
