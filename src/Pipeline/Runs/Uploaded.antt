-- ===== src/Pipeline/Runs/Uploaded.antt =====
-- An upload from the request (internal/http/uploads.go) over the steps (internal/pipeline) to its status.
use bankstmt_analyzer.Prelude.{
  ℕ, ◌≡◌, refl, ◌&&◌, true, false, Bool-cases, inl, inr, Option, none, some, List, [], ◌∷◌, ◌++◌,
  map, arith, ◌==◌, ◌≢◌, All,
}
use bankstmt_analyzer.Text.{Bytes, is_empty}
use bankstmt_analyzer.Text.Space.{trim_space}
use bankstmt_analyzer.Go.{Result, ok}
use bankstmt_analyzer.Db.{Uuid, completed, Numeric, Upload, UploadFile, Analysis}
use bankstmt_analyzer.Db.Queries.{any_row, where_rows, first_row}
use bankstmt_analyzer.Db.Rows.{where_rows-append, where_rows-eq-nil}
use bankstmt_analyzer.Db.Store.{NewUploadFile, file_row}
use bankstmt_analyzer.World.{World}
use bankstmt_analyzer.Http.Problem.{Response, json, RequestInfo}
use bankstmt_analyzer.Http.Status.{UploadStatusResponse, status}
use bankstmt_analyzer.Http.Status.Answers.{status-found, view, analysis_of}
use bankstmt_analyzer.Http.Uploads.{UploadConfig, Next}
use bankstmt_analyzer.Http.Uploads.Accepted.{Taken, create-Taken}
use bankstmt_analyzer.Http.Uploads.Create.{CreateUploadResponse, create}
use bankstmt_analyzer.Http.Uploads.Parts.{Keeps}
use bankstmt_analyzer.Llm
use bankstmt_analyzer.Llm.{Statement}
use bankstmt_analyzer.Ocr
use bankstmt_analyzer.Ocr.{Pages}
use bankstmt_analyzer.Pipeline.Scrub.{Scrubber}
use bankstmt_analyzer.Pipeline.Steps.{steps}
use bankstmt_analyzer.Pipeline.Steps.Progress.{IsFree, Answers}
use bankstmt_analyzer.Pipeline.Steps.Resume.Progress.{IsCalm, IsReadable}
use bankstmt_analyzer.Pipeline.Runs.Completes.{Passes, IsReady, steps-Passes_full}

-- The OCR service reads a text from the document.
pub record Reads (ocr : Bytes → Result Pages) (body : Bytes) : Type 0 where
  pub pages : Pages
  pub answer : ocr body ≡ ok pages
  pub text : is_empty (trim_space (Ocr.markdown pages)) ≡ false

-- The rows of an upload's files, among rows of other uploads.
where_rows-new :
    (u : Uuid) (fs : List NewUploadFile)
    → where_rows (λ f. f.upload_id == u) (map (file_row u) fs) ≡ map (file_row u) fs
where_rows-new u [] = refl
where_rows-new u (f ∷ fs) = ground (arith, where_rows-new u fs)

own_files :
    (u : Uuid) (old : List UploadFile) (fs : List NewUploadFile)
    → any_row (λ f. f.upload_id == u) old ≡ false
    → where_rows (λ f. f.upload_id == u) (old ++ map (file_row u) fs) ≡ map (file_row u) fs
own_files u old fs h =
    rw (where_rows-append, where_rows-eq-nil (λ f. f.upload_id == u) old h, where_rows-new u fs)
      refl

some_own :
    (u : Uuid) (old : List UploadFile) (fs : List NewUploadFile)
    → fs ≢ []
    → any_row (λ f. f.upload_id == u) (old ++ map (file_row u) fs) ≡ true
some_own u [] [] h = absurd (h refl)
some_own u [] (f ∷ fs) h = ground arith
some_own u (g ∷ gs) fs h = ground (arith, some_own u gs fs h)

last_recorded :
    (u : Uuid) (old : List Upload) (row : Upload)
    → row.id ≡ u
    → any_row (λ v. v.id == u) (old ++ row ∷ []) ≡ true
last_recorded u [] row h = ground arith
last_recorded u (v ∷ vs) row h = ground (arith, last_recorded u vs row h)

first_row-some :
    (new_id u : Uuid) (as' : List Analysis)
    → any_row (λ a. a.id == new_id && a.upload_id == u) as' ≡ true
    → (a : Analysis) × (first_row (λ b. b.upload_id == u) as' ≡ some a)
first_row-some new_id u [] h = absurd (ground arith)
first_row-some new_id u (a ∷ as') h = elim (Bool-cases (a.upload_id == u)) [
  | inl own ↦ (a, rw own refl)
  | inr other ↦ let (b, found) = first_row-some new_id u as' (ground arith) in (b, rw other found)
]

map-IsReadable :
    (ocr : Bytes → Result Pages) (Q : Bytes → Bytes → Type 0) (u : Uuid) (w : World)
    (fs : List NewUploadFile)
    → ((body : Bytes) → Reads ocr body)
    → All (λ f. Keeps Q f.storage_key w.blobs) fs
    → All (IsReadable ocr w.blobs) (map (file_row u) fs)
map-IsReadable ocr Q u w [] reads h = tt
map-IsReadable ocr Q u w (f ∷ fs) reads ((body, kept, _), h) = (
  record {
    body = body;
    pages = (reads body).pages;
    kept = kept;
    answer = (reads body).answer;
    text = (reads body).text;
  },
  map-IsReadable ocr Q u w fs reads h,
)

-- What a run of all steps needs stands ready when the upload is accepted.
Taken-IsReady :
    (uuid_text : Uuid → Bytes) (cfg : UploadConfig) (r : RequestInfo) (u : Uuid)
    (ocr : Bytes → Result Pages) (llm : List Statement → Result Llm.Response)
    (scan : Bytes → Result Numeric) (new_id : Uuid) (body : Option (List Next)) (w w' : World)
    {answer : Response CreateUploadResponse}
    → Taken uuid_text cfg r u body w (answer, w')
    → any_row (λ f. f.upload_id == u) w.db.upload_files ≡ false
    → IsCalm w'.blobs w'
    → ((body : Bytes) → Reads ocr body)
    → ((s : Statement) (ss : List Statement) → Answers llm scan new_id u (s ∷ ss))
    → IsFree new_id u w'.db
    → IsReady ocr llm scan new_id u w'
Taken-IsReady uuid_text cfg r u ocr llm scan new_id body w w' taken fresh calm reads answers free =
    record {
      calm = calm;
      recorded =
          rw taken.recorded.uploads (last_recorded u w.db.uploads taken.row taken.recorded.named);
      some_file =
          rw taken.recorded.upload_files (some_own u w.db.upload_files taken.files taken.some_file);
      readable =
          rw (taken.recorded.upload_files, own_files u w.db.upload_files taken.files fresh)
            (map-IsReadable ocr _ u w' taken.files reads taken.kept);
      answers = answers;
      free = free;
    }

-- The upload is shown as completed, without a failure reason and with an analysis.
pub record ShowsCompleted (shown : UploadStatusResponse) : Type 0 where
  pub status_shown : shown.status ≡ completed
  pub no_reason : shown.failure_reason ≡ none
  pub analysis : Uuid
  pub analysis_shown : shown.analysis_id ≡ some analysis

module _ (uuid_text : Uuid → Bytes) (parse : Bytes → Option Uuid) (cfg : UploadConfig)
    (r : RequestInfo) (u : Uuid) where
  -- After a request to create an upload that is not answered with a problem document, where no file was recorded
  -- for the upload's id before, no call of the database or of the blob store fails any more, the OCR service reads a
  -- text from any document, and the model's replies can be converted and get an id that no other upload's analysis
  -- has: all steps of the pipeline are taken in order without an error, and then a request for the upload's status
  -- is answered 200 with the status completed, no failure reason and the id of an analysis.
  pub create-completes :
      (enqueued : Result (Unit {0})) (body : Option (List Next)) (w w' : World) {code : ℕ}
      {answer : CreateUploadResponse} (scrubber : Scrubber) (ocr : Bytes → Result Pages)
      (llm : List Statement → Result Llm.Response) (scan : Bytes → Result Numeric) (new_id : Uuid)
      (param : Bytes)
      → create uuid_text cfg r u enqueued body w ≡ (json code answer, w')
      → any_row (λ f. f.upload_id == u) w.db.upload_files ≡ false
      → IsCalm w'.blobs w'
      → ((document : Bytes) → Reads ocr document)
      → ((s : Statement) (ss : List Statement) → Answers llm scan new_id u (s ∷ ss))
      → IsFree new_id u w'.db
      → parse param ≡ some u
      → (w'' : World) × Passes
          (steps scrubber ocr llm scan new_id)
          (record { upload_id = u; analysis_id = 0 })
          w'
          (record { upload_id = u; analysis_id = new_id })
          w''
        × (shown : UploadStatusResponse) × (status uuid_text parse r param w''.db
            ≡ (json 200 shown, w''.db))
        × ShowsCompleted shown
  create-completes enqueued body w w' scrubber ocr llm scan new_id param created fresh calm reads
        answers free named =
      let taken = create-Taken uuid_text cfg r u enqueued body w w' created in
      let (w'', steps_taken, calm', says, there) =
        steps-Passes_full scrubber ocr llm scan new_id (record { upload_id = u; analysis_id = 0 })
          w'
          (Taken-IsReady uuid_text cfg r u ocr llm scan new_id body w w' taken fresh calm reads
            answers free) in
      let (a, found) = first_row-some new_id u w''.db.analyses there in
      (
        w'',
        steps_taken,
        view uuid_text parse r u says.upload w''.db,
        status-found uuid_text parse r param w''.db u says.upload calm'.quiet named says.found,
        record {
          status_shown = says.status_kept;
          no_reason = rw (view, says.status_kept) refl;
          analysis = a.id;
          analysis_shown = rw (view, says.status_kept, analysis_of, found) refl;
        },
      )
