-- ===== src/Http/Uploads/Bounds.antt =====
-- What `readFiles` (internal/http/uploads.go) hands on: how many files, of which sizes and names.
use mathlib.Core.List.{map-append}
use bankstmt_analyzer.Prelude.{
  ℕ, zero, suc, ◌+◌, ◌≤◌, ◌<◌, ◌≡◌, ◌≢◌, refl, ap, ap₂, ◌∙◌, sym, false, Option, none, some, List,
  [], ◌∷◌, ◌++◌, arith, All, All-append, leb, length, length-append, if◌then◌else◌, Bool-cases, inl,
  inr, take, map,
}
use bankstmt_analyzer.Text.{Bytes, codes, bytes_eq, is_empty, has_prefix, quote}
use bankstmt_analyzer.Go.{Error, Result, ok, err}
use bankstmt_analyzer.Db.{Uuid}
use bankstmt_analyzer.Db.Store.{NewUploadFile, to_int32}
use bankstmt_analyzer.World.{World}
use bankstmt_analyzer.Http.Problem.{Problem}
use bankstmt_analyzer.Http.Uploads.Parts.{pdf_key}
use bankstmt_analyzer.Http.Uploads.{
  UploadConfig, Part, Next, part, unreadable, Read, stored, refused, read_one_file, read_from,
  read_files, check_some, check_size, put_part, head_error, storage_key, sanitise_filename,
  pdf_magic, problem_for_read_error, invalid_file_problem,
}

module _ (uuid_text : Uuid → Bytes) (cfg : UploadConfig) (upload : Uuid) where
  -- The file is of the upload, has a name, and keeps within the limit.
  pub record Accepted (f : NewUploadFile) : Type 0 where
    pub size : f.size_bytes ≤ cfg.max_file_bytes
    pub name : is_empty f.filename ≡ false
    pub content_type : is_empty f.content_type ≡ false
    pub key : f.storage_key ≡ pdf_key uuid_text upload f.id

  -- The files stand at the positions 0, 1, … in order.
  abbrev pub positions : ℕ → ℕ → List ℕ
  positions i zero = []
  positions i (suc n) = to_int32 i ∷ positions (i + 1) n

  pub record AllAccepted (files : List NewUploadFile) : Type 0 where
    pub count : length files ≤ cfg.max_files
    pub each : All Accepted files
    pub order : map (λ f. f.position) files ≡ positions 0 (length files)

  abbrev pub GoodRead : ℕ → Read × World → Type 0
  GoodRead position (stored f, w) = Accepted f × (f.position ≡ position)
  GoodRead position (refused p, w) = Unit

  check_size-good :
      (filename : Bytes) (position : ℕ) (p : Part) (r : Result ℕ × World)
      → is_empty filename ≡ false
      → GoodRead position (
          check_size uuid_text cfg filename
            (storage_key uuid_text cfg upload p.file_id)
            position
            p
            r)
  unfolding check_size storage_key
  check_size-good filename position p (err e, w) h = tt
  check_size-good filename position p (ok size, w) h = ground arith

  head_good :
      (p : Part) (position : ℕ) (w : World)
      → is_empty (sanitise_filename p.file_name) ≡ false
      → (e : Option Error)
      → GoodRead position (elim e [
        | some e ↦ (
          refused (
              problem_for_read_error e
                (quote (sanitise_filename p.file_name) ++ codes " could not be read.")),
          w,
        )
        | none ↦
            if has_prefix (take (length pdf_magic) p.body) pdf_magic
            then check_size uuid_text cfg
                (sanitise_filename p.file_name)
                (storage_key uuid_text cfg upload p.file_id)
                position
                p
                (put_part uuid_text cfg (storage_key uuid_text cfg upload p.file_id) p w)
            else (
              refused (
                  invalid_file_problem
                    (sanitise_filename p.file_name)
                    (codes "the file does not begin with the PDF signature " ++ pdf_magic)),
              w,
            )
      ])
  head_good p position w named (some e) = tt
  head_good p position w named none =
      elim (Bool-cases (has_prefix (take (length pdf_magic) p.body) pdf_magic)) [
        | inl pdf ↦ rw pdf (check_size-good _ position p (put_part uuid_text cfg _ p w) named)
        | inr other ↦ rw other tt
      ]

  read_one_file-good :
      (p : Part) (position : ℕ) (w : World)
      → GoodRead position (read_one_file uuid_text cfg p upload position w)
  unfolding read_one_file
  read_one_file-good p position w = elim (Bool-cases (is_empty (sanitise_filename p.file_name))) [
    | inl none_given ↦ rw none_given tt
    | inr named ↦ rw named (head_good p position w named (head_error p))
  ]

  positions-suc : (i n : ℕ) → positions i (suc n) ≡ positions i n ++ to_int32 (i + n) ∷ []
  positions-suc i zero = ap (λ k. to_int32 k ∷ []) (omega arith)
  positions-suc i (suc n) =
      ap (λ t. to_int32 i ∷ t)
        (positions-suc (i + 1) n ∙ ap (λ k. positions (i + 1) n ++ to_int32 k ∷ []) (omega arith))

  grow :
      (files : List NewUploadFile) (f : NewUploadFile)
      → AllAccepted files
      → length files < cfg.max_files
      → Accepted f
      → f.position ≡ to_int32 (length files)
      → AllAccepted (files ++ f ∷ [])
  grow files f h lt good at = record {
    count = omega (arith, length-append files (f ∷ []));
    each = All-append Accepted files _ h.each (good, tt);
    order =
        map-append _ files (f ∷ [])
        ∙ ap₂ (λ as' bs. as' ++ bs) h.order (ap (λ n. n ∷ []) (at ∙ ap to_int32 (omega arith)))
        ∙ sym (positions-suc 0 (length files))
        ∙ ap (positions 0) {x = suc (length files)} (omega (arith, length-append files (f ∷ [])));
  }

  abbrev pub Outcome : List NewUploadFile × Option Problem × World → Type 0
  Outcome (files, none, w) = AllAccepted files × (files ≢ [])
  Outcome (files, some p, w) = AllAccepted files

  -- What a part that was read leads to.
  next_good :
      (rest : List Next) (files : List NewUploadFile) (r : Read) (w : World)
      → AllAccepted files
      → length files < cfg.max_files
      → GoodRead (to_int32 (length files)) (r, w)
      → ((files' : List NewUploadFile) (w' : World)
          → AllAccepted files'
          → Outcome (read_from uuid_text cfg upload rest files' w'))
      → Outcome (elim r [
        | refused problem ↦ (files, some problem, w)
        | stored f ↦ read_from uuid_text cfg upload rest (files ++ f ∷ []) w
      ])
  next_good rest files (refused p) w h lt good ih = h
  next_good rest files (stored f) w h lt good ih = ih _ w (grow files f h lt good.0 good.1)

  read_from-good :
      (parts : List Next) (files : List NewUploadFile) (w : World)
      → AllAccepted files
      → Outcome (read_from uuid_text cfg upload parts files w)
  unfolding read_from check_some
  read_from-good [] files w h = ground arith
  read_from-good (unreadable e ∷ rest) files w h = ground arith
  read_from-good (part p ∷ rest) files w h =
      elim (Bool-cases (bytes_eq p.form_name (codes "files"))) [
        | inr other ↦ rw (read_from, other) (read_from-good rest files w h)
        | inl is_file ↦ elim (Bool-cases (leb cfg.max_files (length files))) [
          | inl full ↦ rw (read_from, is_file, full) h
          | inr room ↦
              rw (read_from, is_file, room)
                (next_good rest files _ _ h (ground arith)
                  (read_one_file-good p (to_int32 (length files)) w) (read_from-good rest))
        ]
      ]

  -- Whatever the form holds and whether it is refused or not, the files that were stored are at most as
  -- many as is configured; each is at most as large as is configured, has a name and a content type,
  -- and stands under the key of the upload and of its id; and they are numbered 0, 1, … in order, as
  -- 32-bit numbers. If the form is not refused there is at least one.
  pub read_files-accepts :
      (parts : List Next) (w : World) → Outcome (read_files uuid_text cfg upload parts w)
  unfolding read_files
  read_files-accepts parts w =
      read_from-good parts [] w (record { count = omega arith; each = tt; order = refl })
