-- ===== src/Pipeline/Steps/Resume/Progress.antt =====
-- The OCR step of internal/pipeline/steps.go with stored documents that can be read and services that answer.
use bankstmt_analyzer.Prelude.{
  ℕ, ◌≡◌, refl, true, false, some, List, [], ◌∷◌, map, sym, arith, ◌==◌, All, Bool-cases, inl, inr,
  subst, ◌∙◌, ◌++◌,
}
use bankstmt_analyzer.Text.{Bytes, is_empty}
use bankstmt_analyzer.Text.Space.{trim_space}
use bankstmt_analyzer.Go.{Result, ok}
use bankstmt_analyzer.Db.{Uuid, UploadFile, Db}
use bankstmt_analyzer.Db.Queries.{
  where_rows, any_row, order_by_position, set_upload_file_ocr, with_ocr,
}
use bankstmt_analyzer.Db.Store.Quiet.{send-eq}
use bankstmt_analyzer.Db.Store.{to_int32}
use bankstmt_analyzer.World.{World, find_blob, get_blob, reach}
use bankstmt_analyzer.Ocr
use bankstmt_analyzer.Ocr.{Pages}
use bankstmt_analyzer.Go.Hoare.{OnOk}
use bankstmt_analyzer.Pipeline.Steps.Resume.{run_ocr-OnOk}
use bankstmt_analyzer.Pipeline.Steps.Resume.Listing.{
  All-order_by_position, files_of, files_of-some, any_row-listed,
}
use bankstmt_analyzer.Pipeline.Steps.Resume.Rows.{Left, AllRead, AllRead-listed}
use bankstmt_analyzer.Pipeline.Steps.{
  State, has_ocr, read_blob, submit, extract_one, extract_files, run_ocr,
}

-- No call to come of the database or of the blob store fails.
pub record IsCalm (blobs : List (Bytes × Bytes)) (w : World) : Type 0 where
  pub quiet : w.db.outages ≡ []
  pub reached : w.blob_faults ≡ []
  pub stored : w.blobs ≡ blobs

reach-eq : (w : World) → w.blob_faults ≡ [] → reach w ≡ (ok tt, w)
unfolding reach
reach-eq w h = ground arith

read_blob-eq :
    (key body : Bytes) (blobs : List (Bytes × Bytes)) (w : World)
    → IsCalm blobs w
    → find_blob key blobs ≡ some body
    → read_blob key w ≡ (ok body, w)
unfolding read_blob get_blob
read_blob-eq key body blobs w calm h =
    let held : find_blob key w.blobs ≡ some body = rw calm.stored h in
    rw (reach-eq w calm.reached, held, reach-eq w calm.reached) refl

-- The tables are as they were but for the texts and the page counts of the files.
pub record OnlyTexts (before after : Db) : Type 0 where
  pub uploads : after.uploads ≡ before.uploads
  pub analyses : after.analyses ≡ before.analyses
  pub owners :
      (u : Uuid)
      → any_row (λ f. f.upload_id == u) after.upload_files
        ≡ any_row (λ f. f.upload_id == u) before.upload_files

OnlyTexts-trans : {a b c : Db} → OnlyTexts a b → OnlyTexts b c → OnlyTexts a c
OnlyTexts-trans h k = record {
  uploads = k.uploads ∙ h.uploads;
  analyses = k.analyses ∙ h.analyses;
  owners = λ u. k.owners u ∙ h.owners u;
}

any_row-with_ocr :
    (text : Bytes) (pages id u : ℕ) (fs : List UploadFile)
    → any_row (λ f. f.upload_id == u) (map (with_ocr text pages id) fs)
      ≡ any_row (λ f. f.upload_id == u) fs
any_row-with_ocr text pages id u [] = refl
any_row-with_ocr text pages id u (f ∷ fs) = ground (arith, any_row-with_ocr text pages id u fs)

module _ (ocr : Bytes → Result Pages) (blobs : List (Bytes × Bytes)) where
  -- The file's document is stored, and the OCR service reads a text from it.
  pub record IsReadable (f : UploadFile) : Type 0 where
    pub body : Bytes
    pub pages : Pages
    pub kept : find_blob f.storage_key blobs ≡ some body
    pub answer : ocr body ≡ ok pages
    pub text : is_empty (trim_space (Ocr.markdown pages)) ≡ false

  extract_one-ok :
      (f : UploadFile) (w : World)
      → IsCalm blobs w
      → IsReadable f
      → (w' : World) × (extract_one ocr f w ≡ (ok tt, w')) × IsCalm blobs w' × OnlyTexts w.db w'.db
  unfolding extract_one submit set_upload_file_ocr
  extract_one-ok f w calm r =
      let pages = to_int32 (Ocr.page_count r.pages) in
      let rows = map (with_ocr (Ocr.markdown r.pages) pages f.id) w.db.upload_files in
      (
        record w {
          db = record w.db { upload_files = rows };
          ocr_requests = w.ocr_requests ++ r.body ∷ [];
        },
        rw
            (
              read_blob-eq f.storage_key r.body blobs w calm r.kept,
              r.answer,
              r.text,
              send-eq w.db calm.quiet,
            )
            refl,
        record { quiet = calm.quiet; reached = calm.reached; stored = calm.stored },
        record {
          uploads = refl;
          analyses = refl;
          owners = λ u. any_row-with_ocr (Ocr.markdown r.pages) pages f.id u w.db.upload_files;
        },
      )

  extract_files-ok :
      (fs : List UploadFile) (w : World)
      → IsCalm blobs w
      → All IsReadable fs
      → (w' : World) × (extract_files ocr fs w ≡ (ok tt, w'))
        × IsCalm blobs w'
        × OnlyTexts w.db w'.db
  unfolding extract_files
  extract_files-ok [] w calm h =
      (w, refl, calm, record { uploads = refl; analyses = refl; owners = λ u. refl })
  extract_files-ok (f ∷ fs) w calm h = elim (Bool-cases (has_ocr f)) [
    | inl read ↦ rw read (extract_files-ok fs w calm h.1)
    | inr new ↦
        let (w₁, e₁, calm₁, same₁) = extract_one-ok f w calm h.0 in
        let (w₂, e₂, calm₂, same₂) = extract_files-ok fs w₁ calm₁ h.1 in
        rw new (w₂, rw e₁ e₂, calm₂, OnlyTexts-trans same₁ same₂)
  ]

-- The OCR step, when all that it needs is there.
pub run_ocr_passes :
    (ocr : Bytes → Result Pages) (state : State) (w : World)
    → IsCalm w.blobs w
    → any_row (λ f. f.upload_id == state.upload_id) w.db.upload_files ≡ true
    → All
        (IsReadable ocr w.blobs)
        (where_rows (λ f. f.upload_id == state.upload_id) w.db.upload_files)
    → (w' : World) × (run_ocr ocr state w ≡ (ok state, w'))
      × All (λ f. has_ocr f ≡ true) (files_of state.upload_id w')
      × IsCalm w.blobs w'
      × OnlyTexts w.db w'.db
unfolding run_ocr order_by_position AllRead
run_ocr_passes ocr state w calm some_file readable =
    let u = state.upload_id in
    let (g, gs, listed) = files_of-some u w some_file in
    let each : All (IsReadable ocr w.blobs) (g ∷ gs) = subst (All (IsReadable ocr w.blobs)) listed (
      All-order_by_position (IsReadable ocr w.blobs)
        (where_rows (λ f. f.upload_id == u) w.db.upload_files) readable) in
    let (w', extracted, calm', same) = extract_files-ok ocr w.blobs (g ∷ gs) w calm each in
    let ended : run_ocr ocr state w ≡ (ok state, w') =
      rw (send-eq w.db calm.quiet, listed, extracted) refl in
    (
      w',
      ended,
      AllRead-listed u w'.db.upload_files
          (subst (OnOk (λ _ v. Left u [] v.db.upload_files)) ended (run_ocr-OnOk ocr state w)),
      calm',
      same,
    )

-- When no call of the database or of the blob store fails, the upload has files, and each of its documents is
-- stored and is one from which the OCR service reads a text, the OCR step ends without an error, and then every
-- file of the upload has a text.
run_ocr-ok :
    (ocr : Bytes → Result Pages) (state : State) (w : World) {f : UploadFile} {fs : List UploadFile}
    → IsCalm w.blobs w
    → where_rows (λ f. f.upload_id == state.upload_id) w.db.upload_files ≡ f ∷ fs
    → All (IsReadable ocr w.blobs) (f ∷ fs)
    → (w' : World) × (run_ocr ocr state w ≡ (ok state, w'))
      × All (λ f. has_ocr f ≡ true) (files_of state.upload_id w')
run_ocr-ok ocr state w {f} {fs} calm own readable =
    let u = state.upload_id in
    let (w', ended, texts, _, _) =
      run_ocr_passes ocr state w calm (any_row-listed u w.db.upload_files own)
        (subst (All (IsReadable ocr w.blobs)) (sym own) readable) in
    (w', ended, texts)
