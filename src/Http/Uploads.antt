-- ===== src/Http/Uploads.antt =====
-- internal/http/uploads.go: reading the files of a request, up to storing them. Log lines are left out. A uuid is printed by `uuid_text`, and the ids that `uuid.New` gives are inputs.
pub mod Create
pub mod Parts
pub mod Bounds
pub mod Kept
pub mod Accepted
pub mod Leaves
pub mod Orphans
pub mod Refusals
pub mod Unqueued
use bankstmt_analyzer.Prelude.{
  ℕ, ◌+◌, ◌||◌, not, Option, none, some, List, [], ◌∷◌, ◌++◌, ltb, leb, length, take, if◌then◌else◌,
}
use bankstmt_analyzer.Text.{Bytes, codes, is_empty, bytes_eq, has_prefix, replace_all, quote}
use bankstmt_analyzer.Text.Decimal.{print_decimal}
use bankstmt_analyzer.Text.Path.{base}
use bankstmt_analyzer.Text.Space.{trim_space}
use bankstmt_analyzer.Go.{Error, wrap, as_max_bytes, Result, ok, err}
use bankstmt_analyzer.Db.{Uuid, Status, failed, Upload}
use bankstmt_analyzer.Db.Queries.{set_upload_status}
use bankstmt_analyzer.Db.Store.{NewUploadFile, create_upload_with_files, to_int32}
use bankstmt_analyzer.World.{World, query, put_blob, delete_blob}
use bankstmt_analyzer.Http.Problem.{
  Problem, new_problem, Response, json, RequestInfo, write_problem, write_error, internal,
}

-- `config.UploadConfig`
pub record UploadConfig : Type 0 where
  pub max_files : ℕ
  pub max_file_bytes : ℕ

-- A part of the form: reading it gives the body's bytes, then its end or an error. `file_id` is the
-- uuid that is made for it if it is stored.
pub record Part : Type 0 where
  pub form_name : Bytes
  pub file_name : Bytes
  pub content_type : Bytes
  pub body : Bytes
  pub broken : Option Error
  pub file_id : Uuid

-- What `NextPart` returns, until `io.EOF`.
pub data Next : Type 0 where
  part : Part → Next
  unreadable : Error → Next

abbrev pub pdf_magic : Bytes
pdf_magic = codes "%PDF-"

-- `sanitiseFilename`
unfoldable pub sanitise_filename : Bytes → Bytes
unfolding trim_space replace_all base bytes_eq
sanitise_filename name =
    let name' = base (replace_all (trim_space name) (codes "\\") (codes "/")) in
    if bytes_eq name' (codes ".") || bytes_eq name' (codes "/") then [] else name'

-- `invalidFileProblem`
unfoldable pub invalid_file_problem : Bytes → Bytes → Problem
unfolding new_problem
invalid_file_problem filename reason =
    let name : Bytes =
      if is_empty filename then codes "files" else codes "files[" ++ (filename ++ codes "]") in
    record (new_problem 400 (codes "Every uploaded file must be a PDF.")) {
      invalid_params = record { name = name; reason = reason } ∷ [];
    }

-- `problemForReadError`
unfoldable pub problem_for_read_error : Error → Bytes → Problem
unfolding as_max_bytes new_problem print_decimal
problem_for_read_error e detail = elim (as_max_bytes e) [
  | some limit ↦
      new_problem 413
        (codes "The request body exceeds the " ++ (print_decimal limit ++ codes " byte limit."))
  | none ↦ new_problem 400 detail
]

-- `deleteBlob`; a failure is only logged.
unfoldable pub discard_blob : Bytes → World → World
unfolding delete_blob
discard_blob key w = (delete_blob key w).1

-- `discard`
unfoldable pub discard : List NewUploadFile → World → World
unfolding discard_blob
discard [] w = w
discard (f ∷ fs) w = discard fs (discard_blob f.storage_key w)

-- A part's file, stored, or the problem with it.
pub data Read : Type 0 where
  stored : NewUploadFile → Read
  refused : Problem → Read

-- The error that `io.ReadFull` returns on the part, if it is not the part's end.
abbrev head_error : Part → Option Error
head_error p = if leb (length pdf_magic) (length p.body) then none else p.broken

-- The error that reading the limited body meets.
abbrev body_error : ℕ → Part → Option Error
body_error limit p = if leb limit (length p.body) then none else p.broken

module _ (uuid_text : Uuid → Bytes) (cfg : UploadConfig) where
  -- `storageKey`; the joined elements have nothing that `path.Join` would clean.
  unfoldable pub storage_key : Uuid → Uuid → Bytes
  storage_key upload file =
      codes "uploads/" ++ (uuid_text upload ++ (codes "/" ++ (uuid_text file ++ codes ".pdf")))

  -- `Put` of the limited body, with the number of bytes stored.
  put_part : Bytes → Part → World → Result ℕ × World
  unfolding put_blob
  put_part key p w = elim (body_error (cfg.max_file_bytes + 1) p) [
    | some e ↦ (err (wrap (codes "storage: put " ++ quote key) e), w)
    | none ↦
        let content = take (cfg.max_file_bytes + 1) p.body in
        let (r, w') = put_blob key content w in
        (
          elim r [
            | ok _ ↦ ok (length content)
            | err e ↦ err (wrap (codes "storage: put " ++ quote key) e)
          ],
          w',
        )
  ]

  -- The check of the size, behind `Put`.
  check_size : Bytes → Bytes → ℕ → Part → Result ℕ × World → Read × World
  unfolding problem_for_read_error new_problem print_decimal discard_blob
  check_size filename key position p (err e, w) =
      (refused (problem_for_read_error e (quote filename ++ codes " could not be stored.")), w)
  check_size filename key position p (ok size, w) =
      if ltb cfg.max_file_bytes size
      then (
        refused (
            new_problem 413 (
              quote filename
              ++ (codes " exceeds the "
                  ++ (print_decimal cfg.max_file_bytes
                      ++ codes " byte limit for a single file.")))),
        discard_blob key w,
      )
      else (
        stored (record {
          id = p.file_id;
          position = position;
          filename = filename;
          content_type =
              if is_empty p.content_type then codes "application/pdf" else p.content_type;
          size_bytes = size;
          storage_key = key;
        }),
        w,
      )

  -- `readOneFile`
  unfoldable pub read_one_file : Part → Uuid → ℕ → World → Read × World
  unfolding sanitise_filename invalid_file_problem problem_for_read_error has_prefix storage_key
      put_part check_size
  read_one_file p upload position w =
      let filename = sanitise_filename p.file_name in
      if is_empty filename
      then (refused (invalid_file_problem [] (codes "the part carries no filename")), w)
      else elim (head_error p) [
        | some e ↦
            (refused (problem_for_read_error e (quote filename ++ codes " could not be read.")), w)
        | none ↦
            if has_prefix (take (length pdf_magic) p.body) pdf_magic
            then check_size filename (storage_key upload p.file_id) position p
                (put_part (storage_key upload p.file_id) p w)
            else (
              refused (
                  invalid_file_problem filename
                    (codes "the file does not begin with the PDF signature " ++ pdf_magic)),
              w,
            )
      ]

  -- The end of `readFiles`.
  check_some : List NewUploadFile → World → List NewUploadFile × Option Problem × World
  unfolding new_problem
  check_some [] w = (
    [],
    some (new_problem 400 (codes "At least one PDF must be supplied in the \"files\" field.")),
    w,
  )
  check_some (f ∷ fs) w = (f ∷ fs, none, w)

  -- The loop of `readFiles` behind the files that it has stored so far.
  unfoldable pub read_from :
      Uuid → List Next → List NewUploadFile → World → List NewUploadFile × Option Problem × World
  unfolding check_some problem_for_read_error new_problem print_decimal bytes_eq read_one_file
  read_from upload [] files w = check_some files w
  read_from upload (unreadable e ∷ rest) files w =
      (files, some (problem_for_read_error e (codes "The upload could not be read.")), w)
  read_from upload (part p ∷ rest) files w =
      let skipped = read_from upload rest files w in
      let too_many : List NewUploadFile × Option Problem × World = (
        files,
        some (
            new_problem 400 (
              codes "At most "
              ++ (print_decimal cfg.max_files ++ codes " files may be uploaded at once."))),
        w,
      ) in
      let (r, w') = read_one_file p upload (to_int32 (length files)) w in
      let read : List NewUploadFile × Option Problem × World = elim r [
        | refused problem ↦ (files, some problem, w')
        | stored f ↦ read_from upload rest (files ++ f ∷ []) w'
      ] in
      if not (bytes_eq p.form_name (codes "files"))
      then skipped
      else if leb cfg.max_files (length files)
      then too_many
      else read

  -- `readFiles`
  unfoldable pub read_files : Uuid → List Next → World → List NewUploadFile × Option Problem × World
  unfolding read_from
  read_files upload parts w = read_from upload parts [] w
