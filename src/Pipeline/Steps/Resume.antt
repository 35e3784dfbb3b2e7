-- ===== src/Pipeline/Steps/Resume.antt =====
-- The OCR step of internal/pipeline/steps.go, taken again: documents that have been read are not sent again.
mod Rows
pub mod Listing
mod Files
pub mod Progress
use bankstmt_analyzer.Prelude.{
  ℕ, ◌≡◌, refl, sym, subst, ap, ◌∙◌, ◌⊎◌, inl, inr, Bool, true, false, not, Option, none, some,
  List, [], ◌∷◌, ◌++◌, map, arith, ◌==◌, All, In, Bool-cases, leb, if◌then◌else◌,
}
use bankstmt_analyzer.Text.{Bytes, codes, is_empty, quote}
use bankstmt_analyzer.Text.Space.{trim_space}
use bankstmt_analyzer.Go.{Error, plain, Result, ok, err}
use bankstmt_analyzer.Go.Monad.{
  Exec, annotate, continue, pure, context, raise_if, lift, modify, ◌>>=◌, ◌>>◌,
}
use bankstmt_analyzer.Go.Hoare.{OnOk, OnOk-bind, OnOk-context, OnOk-mono}
use bankstmt_analyzer.Db.{Uuid, UploadFile, Db}
use bankstmt_analyzer.Db.Queries.{
  where_rows, with_ocr, order_by_position, insert_position, set_upload_file_ocr, list_upload_files,
  send,
}
use bankstmt_analyzer.Db.Store.{to_int32}
use bankstmt_analyzer.World.{World, query, get_blob, reach}
use bankstmt_analyzer.Ocr
use bankstmt_analyzer.Ocr.{Pages}
use bankstmt_analyzer.Pipeline.Steps.Resume.Rows.{
  Left, unread, unread-read, unread-new, Left-with_ocr, Left-listed, AllRead, AllRead-listed,
}
use bankstmt_analyzer.Pipeline.Steps.{
  State, has_ocr, read_blob, submit, extract_one, extract_files, run_ocr,
}
use bankstmt_analyzer.Pipeline.Steps.Resume.Files.{extract_files-OnOk, extract_files-AllRead}

module _ (ocr : Bytes → Result Pages) where
  list_upload_files-OnOk :
      (u : Uuid) (w : World)
      → OnOk
          (λ fs w'.
            (fs ≡ order_by_position (where_rows (λ f. f.upload_id == u) w'.db.upload_files))
            × (w'.ocr_requests ≡ w.ocr_requests))
          (query (list_upload_files u) w)
  unfolding list_upload_files send
  list_upload_files-OnOk u w = ground arith

  list_upload_files-requests :
      (u : Uuid) (w : World)
      → ((query (list_upload_files u) w).1.ocr_requests ≡ w.ocr_requests)
        × ((query (list_upload_files u) w).1.db.upload_files ≡ w.db.upload_files)
  unfolding list_upload_files send
  list_upload_files-requests u w = ground arith

  -- What `runOCR` does with the files that were listed.
  abbrev ocr_listed : State → List UploadFile → Exec World State
  ocr_listed state fs =
      raise_if (elim fs [ [] ↦ true | _ ∷ _ ↦ false ])
        (plain (codes "upload has no files to process"))
      >> (extract_files ocr fs >> pure state)

  ocr_listed-OnOk :
      (state : State) (fs : List UploadFile) (w : World)
      → Left state.upload_id (unread fs) w.db.upload_files
      → OnOk (λ _ w'. Left state.upload_id [] w'.db.upload_files) (ocr_listed state fs w)
  ocr_listed-OnOk state [] w h = tt
  ocr_listed-OnOk state (f ∷ fs) w h =
      OnOk-bind (λ _ w'. Left state.upload_id [] w'.db.upload_files)
        (λ _ w'. Left state.upload_id [] w'.db.upload_files) (extract_files ocr (f ∷ fs))
        (λ _. pure state) w (extract_files-OnOk ocr state.upload_id (f ∷ fs) w h)
        (λ _ w' left. left)

  ocr_listed-AllRead :
      (state : State) (fs : List UploadFile) (w : World)
      → AllRead fs
      → (ocr_listed state fs w).1 ≡ w
  ocr_listed-AllRead state [] w h = refl
  ocr_listed-AllRead state (f ∷ fs) w h = rw (extract_files-AllRead ocr (f ∷ fs) w h) refl

  pub run_ocr-OnOk :
      (state : State) (w : World)
      → OnOk (λ _ w'. Left state.upload_id [] w'.db.upload_files) (run_ocr ocr state w)
  unfolding run_ocr
  run_ocr-OnOk state w =
      OnOk-bind
        (λ fs w'.
          (fs
            ≡ order_by_position
                (where_rows (λ f. f.upload_id == state.upload_id) w'.db.upload_files))
          × (w'.ocr_requests ≡ w.ocr_requests))
        (λ _ w'. Left state.upload_id [] w'.db.upload_files)
        (context _ (query (list_upload_files state.upload_id))) _ w
        (OnOk-context _ _ (query (list_upload_files state.upload_id)) w
          (list_upload_files-OnOk state.upload_id w))
        λ fs w₁ (e, _). ocr_listed-OnOk state fs w₁ (
          subst (λ gs. Left state.upload_id (unread gs) w₁.db.upload_files) (sym e)
            (Left-listed state.upload_id w₁.db.upload_files))

  run_ocr-rest :
      (state : State) (w : World)
      → Left state.upload_id [] w.db.upload_files
      → (run_ocr ocr state w).1.ocr_requests ≡ w.ocr_requests
  unfolding run_ocr
  run_ocr-rest state w left =
      let (same_requests, same_files) = list_upload_files-requests state.upload_id w in
      go (query (list_upload_files state.upload_id) w).0
        (query (list_upload_files state.upload_id) w).1 same_requests same_files
        (list_upload_files-OnOk state.upload_id w)
    where
      go :
          (r : Result (List UploadFile)) (w' : World)
          → w'.ocr_requests ≡ w.ocr_requests
          → w'.db.upload_files ≡ w.db.upload_files
          → OnOk
              (λ fs v.
                (fs
                  ≡ order_by_position
                      (where_rows (λ f. f.upload_id == state.upload_id) v.db.upload_files))
                × (v.ocr_requests ≡ w.ocr_requests))
              (r, w')
          → (continue (annotate (codes "list upload files") r) (ocr_listed state) w').1.ocr_requests
            ≡ w.ocr_requests
      go (err e) w' same files h = same
      go (ok fs) w' same files (e, _) =
          ap (λ v. v.ocr_requests)
            (ocr_listed-AllRead state fs w' (
              subst AllRead (sym e) (
                AllRead-listed state.upload_id w'.db.upload_files
                  (subst (Left state.upload_id []) (sym files) left))))
          ∙ same

-- When the OCR step of an upload has ended without an error, taking it again, with whatever client and however
-- that ends, sends no document to the OCR service.
pub run_ocr-resumes :
    (ocr ocr' : Bytes → Result Pages) (state : State) (w : World) {state' : State} {w' : World}
    → run_ocr ocr state w ≡ (ok state', w')
    → (run_ocr ocr' state w').1.ocr_requests ≡ w'.ocr_requests
run_ocr-resumes ocr ocr' state w {w'} h =
    run_ocr-rest ocr' state w'
      (subst (OnOk (λ _ v. Left state.upload_id [] v.db.upload_files)) h (run_ocr-OnOk ocr state w))
