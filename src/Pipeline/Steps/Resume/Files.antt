-- ===== src/Pipeline/Steps/Resume/Files.antt =====
-- The OCR step's loop over the files of an upload (internal/pipeline/steps.go): it leaves none without a text.
use bankstmt_analyzer.Prelude.{
  ℕ, ◌≡◌, refl, sym, subst, ap, ◌∙◌, inl, inr, false, List, [], ◌∷◌, ◌++◌, map, arith, Bool-cases,
}
use bankstmt_analyzer.Text.{Bytes, codes, is_empty, quote}
use bankstmt_analyzer.Text.Space.{trim_space}
use bankstmt_analyzer.Go.{Error, plain, Result, ok, err}
use bankstmt_analyzer.Go.Monad.{context, raise_if, ◌>>◌}
use bankstmt_analyzer.Go.Hoare.{OnOk, OnOk-bind, OnOk-context, OnOk-mono}
use bankstmt_analyzer.Db.{Uuid, UploadFile}
use bankstmt_analyzer.Db.Queries.{with_ocr, set_upload_file_ocr, send}
use bankstmt_analyzer.Db.Store.{to_int32}
use bankstmt_analyzer.World.{World, query, get_blob, reach}
use bankstmt_analyzer.Ocr
use bankstmt_analyzer.Ocr.{Pages}
use bankstmt_analyzer.Pipeline.Steps.Resume.Rows.{
  Left, unread, unread-read, unread-new, Left-with_ocr, AllRead,
}
use bankstmt_analyzer.Pipeline.Steps.{has_ocr, read_blob, submit, extract_one, extract_files}

read_blob-db : (key : Bytes) (w : World) → OnOk (λ _ w'. w'.db ≡ w.db) (read_blob key w)
unfolding read_blob get_blob reach
read_blob-db key w = ground arith

module _ (ocr : Bytes → Result Pages) where
  pub extract_files-AllRead :
      (fs : List UploadFile) (w : World) → AllRead fs → extract_files ocr fs w ≡ (ok tt, w)
  unfolding extract_files AllRead
  extract_files-AllRead [] w h = refl
  extract_files-AllRead (f ∷ fs) w h = rw (h.0) (extract_files-AllRead fs w h.1)

  -- The text of one document is recorded.
  abbrev Extracted : Uuid → World → World → Type 0
  Extracted id w w' =
      (text : Bytes) × (pages : ℕ) × (is_empty (trim_space text) ≡ false)
      × (w'.db.upload_files ≡ map (with_ocr text pages id) w.db.upload_files)

  submit-db :
      (pdf : Bytes) (w' w : World) → w'.db ≡ w.db → OnOk (λ _ v. v.db ≡ w.db) (submit ocr pdf w')
  unfolding submit
  submit-db pdf w' w same = go (ocr pdf)
    where
      go :
          (r : Result Pages)
          → OnOk (λ _ v. v.db ≡ w.db) (r, record w' { ocr_requests = w'.ocr_requests ++ pdf ∷ [] })
      go (ok pages) = same
      go (err e) = tt

  set_upload_file_ocr-OnOk :
      (text : Bytes) (pages id : ℕ) (w : World)
      → OnOk
          (λ _ v. v.db.upload_files ≡ map (with_ocr text pages id) w.db.upload_files)
          (query (set_upload_file_ocr text pages id) w)
  unfolding set_upload_file_ocr send
  set_upload_file_ocr-OnOk text pages id w = ground arith

  store-OnOk :
      (text : Bytes) (pages id : ℕ) (e : Error) (note : Bytes) (w w' : World)
      → w'.db ≡ w.db
      → OnOk
          (λ _. Extracted id w)
          ((raise_if (is_empty (trim_space text)) e
              >> context note (query (set_upload_file_ocr text pages id)))
            w')
  store-OnOk text pages id e note w w' same = elim (Bool-cases (is_empty (trim_space text))) [
    | inl blank ↦ rw blank tt
    | inr given ↦ rw given (
        OnOk-context note (λ _. Extracted id w) (query (set_upload_file_ocr text pages id)) w'
          (OnOk-mono (λ _ v. v.db.upload_files ≡ map (with_ocr text pages id) w'.db.upload_files)
            (λ _. Extracted id w) (query (set_upload_file_ocr text pages id) w')
            (λ _ v h. (
              text,
              pages,
              given,
              h ∙ ap (λ db. map (with_ocr text pages id) db.upload_files) same,
            ))
            (set_upload_file_ocr-OnOk text pages id w')))
  ]

  extract_one-OnOk :
      (f : UploadFile) (w : World) → OnOk (λ _. Extracted f.id w) (extract_one ocr f w)
  unfolding extract_one submit
  extract_one-OnOk f w =
      OnOk-bind (λ _ w'. w'.db ≡ w.db) (λ _. Extracted f.id w) (context _ (read_blob f.storage_key))
        _ w
        (OnOk-context _ (λ _ w'. w'.db ≡ w.db) (read_blob f.storage_key) w
          (read_blob-db f.storage_key w))
        λ pdf w₁ same.
          OnOk-bind (λ _ w'. w'.db ≡ w.db) (λ _. Extracted f.id w) (context _ (submit ocr pdf)) _ w₁
            (OnOk-context _ (λ _ w'. w'.db ≡ w.db) (submit ocr pdf) w₁ (submit-db pdf w₁ w same))
            λ pages w₂ same'.
              store-OnOk (Ocr.markdown pages) (to_int32 (Ocr.page_count pages)) f.id
                (plain
                  (codes "file " ++ (quote f.filename ++ codes ": the document produced no text")))
                (codes "store OCR output for " ++ quote f.filename) w w₂ same'

  pub extract_files-OnOk :
      (u : Uuid) (fs : List UploadFile) (w : World)
      → Left u (unread fs) w.db.upload_files
      → OnOk (λ _ w'. Left u [] w'.db.upload_files) (extract_files ocr fs w)
  unfolding extract_files
  extract_files-OnOk u [] w h = h
  extract_files-OnOk u (f ∷ fs) w h = elim (Bool-cases (has_ocr f)) [
    | inl read ↦ rw read (
        extract_files-OnOk u fs w
          (subst (λ ids. Left u ids w.db.upload_files) (unread-read f fs read) h))
    | inr new ↦ rw new (
        OnOk-bind (λ _. Extracted f.id w) (λ _ w'. Left u [] w'.db.upload_files) (extract_one ocr f)
          _ w (extract_one-OnOk f w)
          λ _ w' (text, pages, some_text, e). extract_files-OnOk u fs w' (
            subst (Left u (unread fs)) (sym e) (
              Left-with_ocr u text pages f.id (unread fs) w.db.upload_files some_text
                (subst (λ ids. Left u ids w.db.upload_files) (unread-new f fs new) h))))
  ]
