-- ===== src/Http/Uploads/Refusals.antt =====
-- What `create` (internal/http/uploads.go) leaves in the database when it refuses a request.
use bankstmt_analyzer.Prelude.{
  ℕ, ◌≡◌, ◌≢◌, refl, sym, subst, Option, none, some, List, [], ◌∷◌, ◌++◌, arith, ◌+◌, ◌∙◌, take,
  length, leb, Bool-cases, Option-cases, inl, inr, ◌⊎◌,
}
use bankstmt_analyzer.Text.{Bytes, codes, is_empty, has_prefix, bytes_eq}
use bankstmt_analyzer.Go.{Result, ok, err}
use bankstmt_analyzer.Db.{Uuid, Upload, Db}
use bankstmt_analyzer.Db.Store.{NewUploadFile, to_int32}
use bankstmt_analyzer.Db.Store.Atomic.{SameTables, OnError, create_upload_with_files-OnError}
use bankstmt_analyzer.World.{World, put_blob, delete_blob, reach}
use bankstmt_analyzer.Http.Problem.{
  Problem, Response, problem, json, RequestInfo, write_problem, fill_problem, new_problem,
  write_error, internal,
}
use bankstmt_analyzer.Http.Uploads.{
  UploadConfig, Part, Next, part, unreadable, discard, discard_blob, read_one_file, read_from,
  read_files, check_some, check_size, put_part, Read, stored, refused, storage_key,
  sanitise_filename, head_error, pdf_magic,
}
use bankstmt_analyzer.Http.Uploads.Create.{CreateUploadResponse, queue, record_files, create}

reach-db : (w : World) → (reach w).1.db ≡ w.db
unfolding reach
reach-db w = ground arith

put_blob-db : (key body : Bytes) (w : World) → (put_blob key body w).1.db ≡ w.db
unfolding put_blob reach
put_blob-db key body w = ground arith

discard_blob-db : (key : Bytes) (w : World) → (discard_blob key w).db ≡ w.db
unfolding discard_blob delete_blob reach
discard_blob-db key w = ground arith

discard-db : (fs : List NewUploadFile) (w : World) → (discard fs w).db ≡ w.db
unfolding discard
discard-db [] w = refl
discard-db (f ∷ fs) w =
    ground (arith, discard-db fs (discard_blob f.storage_key w), discard_blob-db f.storage_key w)

module _ (uuid_text : Uuid → Bytes) (cfg : UploadConfig) where
  put_part-db : (key : Bytes) (p : Part) (w : World) → (put_part uuid_text cfg key p w).1.db ≡ w.db
  unfolding put_part
  put_part-db key p w = ground (arith, put_blob-db key (take (cfg.max_file_bytes + 1) p.body) w)

  check_size-db :
      (filename key : Bytes) (position : ℕ) (p : Part) (r : Result ℕ × World)
      → (check_size uuid_text cfg filename key position p r).1.db ≡ r.1.db
  unfolding check_size
  check_size-db filename key position p (err e, w) = refl
  check_size-db filename key position p (ok size, w) = ground (arith, discard_blob-db key w)

  read_one_file-db :
      (p : Part) (upload : Uuid) (position : ℕ) (w : World)
      → (read_one_file uuid_text cfg p upload position w).1.db ≡ w.db
  unfolding read_one_file
  read_one_file-db p upload position w =
      let key = storage_key uuid_text cfg upload p.file_id in
      elim (Bool-cases (is_empty (sanitise_filename p.file_name))) [
        | inl none_given ↦ rw none_given refl
        | inr named ↦ elim (Option-cases (head_error p)) [
          | inr (e, broken) ↦ rw (named, broken) refl
          | inl fine ↦ elim (Bool-cases (has_prefix (take (length pdf_magic) p.body) pdf_magic)) [
            | inr other ↦ rw (named, fine, other) refl
            | inl pdf ↦
                rw (named, fine, pdf)
                  (check_size-db (sanitise_filename p.file_name) key position p
                      (put_part uuid_text cfg key p w)
                    ∙ put_part-db key p w)
          ]
        ]
      ]

  next_db :
      (upload : Uuid) (rest : List Next) (files : List NewUploadFile) (r : Read) (w : World)
      → ((files' : List NewUploadFile) (w' : World)
          → (read_from uuid_text cfg upload rest files' w').2.db ≡ w'.db)
      → (elim r as (λ _. List NewUploadFile × Option Problem × World) [
        | refused q ↦ (files, some q, w)
        | stored f ↦ read_from uuid_text cfg upload rest (files ++ f ∷ []) w
      ]).2.db
        ≡ w.db
  next_db upload rest files (refused p) w ih = refl
  next_db upload rest files (stored f) w ih = ih (files ++ f ∷ []) w

  read_from-db :
      (upload : Uuid) (parts : List Next) (files : List NewUploadFile) (w : World)
      → (read_from uuid_text cfg upload parts files w).2.db ≡ w.db
  unfolding read_from check_some
  read_from-db upload [] [] w = refl
  read_from-db upload [] (f ∷ fs) w = refl
  read_from-db upload (unreadable e ∷ rest) files w = refl
  read_from-db upload (part p ∷ rest) files w =
      let (r, w') = read_one_file uuid_text cfg p upload (to_int32 (length files)) w in
      elim (Bool-cases (bytes_eq p.form_name (codes "files"))) [
        | inr other ↦ rw (read_from, other) (read_from-db upload rest files w)
        | inl is_file ↦ elim (Bool-cases (leb cfg.max_files (length files))) [
          | inl full ↦ rw (read_from, is_file, full) refl
          | inr room ↦
              rw (read_from, is_file, room)
                (next_db upload rest files r w' (read_from-db upload rest)
                  ∙ read_one_file-db p upload (to_int32 (length files)) w)
        ]
      ]

  pub read_files-db :
      (upload : Uuid) (parts : List Next) (w : World)
      → (read_files uuid_text cfg upload parts w).2.db ≡ w.db
  unfolding read_files
  read_files-db upload parts w = read_from-db upload parts [] w

  module _ (r : RequestInfo) where
    -- What a response says of the database: a refusal that does not answer 503 has left it alone.
    abbrev LeftAlone : Db → Response CreateUploadResponse × World → Type 0
    LeftAlone db (problem p, w) = (p.status ≡ 503) ⊎ SameTables db w.db
    LeftAlone db (json status a, w) = Unit

    queue-LeftAlone :
        (row : Upload) (upload : Uuid) (enqueued : Result (Unit {0})) (w : World) (db : Db)
        → LeftAlone db (queue uuid_text cfg r row upload enqueued w)
    unfolding queue write_problem fill_problem new_problem
    queue-LeftAlone row upload (err e) w db = inl refl
    queue-LeftAlone row upload (ok _) w db = tt

    recorded_db :
        (upload : Uuid) (enqueued : Result (Unit {0})) (files : List NewUploadFile)
        (row : Result Upload) (w : World) (db : Db)
        → OnError (SameTables db) (row, w.db)
        → LeftAlone db (elim row [
          | err e ↦ (write_error r (internal e), discard files w)
          | ok u ↦ queue uuid_text cfg r u upload enqueued w
        ])
    unfolding write_error write_problem
    recorded_db upload enqueued files (err e) w db h =
        inr (subst (SameTables db) (sym (discard-db files w)) h)
    recorded_db upload enqueued files (ok u) w db h = queue-LeftAlone u upload enqueued w db

    record_files-LeftAlone :
        (upload : Uuid) (enqueued : Result (Unit {0})) (files : List NewUploadFile) (w : World)
        → LeftAlone w.db (record_files uuid_text cfg r upload enqueued files w)
    unfolding record_files
    record_files-LeftAlone upload enqueued files w =
        recorded_db upload enqueued files _ _ w.db
          (create_upload_with_files-OnError upload files w.db)

    same : (a b : Db) → b ≡ a → SameTables a b
    same a b e = ground arith

    -- What `create` does with the files that were read.
    go_on :
        (upload : Uuid) (enqueued : Result (Unit {0})) (files : List NewUploadFile)
        (refusal : Option Problem) (w : World) (db : Db)
        → w.db ≡ db
        → LeftAlone db (elim refusal [
          | some p ↦ (write_problem r (some p), discard files w)
          | none ↦ record_files uuid_text cfg r upload enqueued files w
        ])
    unfolding write_problem
    go_on upload enqueued files (some p) w db e = inr (same db _ (discard-db files w ∙ e))
    go_on upload enqueued files none w db e =
        subst (λ d. LeftAlone d (record_files uuid_text cfg r upload enqueued files w)) e
          (record_files-LeftAlone upload enqueued files w)

    create-LeftAlone :
        (upload : Uuid) (enqueued : Result (Unit {0})) (body : Option (List Next)) (w : World)
        → LeftAlone w.db (create uuid_text cfg r upload enqueued body w)
    unfolding create write_problem
    create-LeftAlone upload enqueued none w = inr (same w.db w.db refl)
    create-LeftAlone upload enqueued (some parts) w =
        go_on upload enqueued _ _ _ w.db (read_files-db upload parts w)

    -- A request to create an upload that is answered with a problem document, whatever the body and
    -- whichever statement or blob call fails, leaves the tables as they were, unless the answer is 503.
    pub create-refuses :
        (upload : Uuid) (enqueued : Result (Unit {0})) (body : Option (List Next)) (w : World)
        {p : Problem} {w' : World}
        → create uuid_text cfg r upload enqueued body w ≡ (problem p, w')
        → p.status ≢ 503
        → SameTables w.db w'.db
    create-refuses upload enqueued body w h other =
        elim (subst (LeftAlone w.db) h (create-LeftAlone upload enqueued body w)) [
          | inl e ↦ absurd (other e)
          | inr left ↦ left
        ]
