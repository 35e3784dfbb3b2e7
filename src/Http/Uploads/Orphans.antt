-- ===== src/Http/Uploads/Orphans.antt =====
-- What a refused request to create an upload (internal/http/uploads.go) leaves in the blob store.
use bankstmt_analyzer.Prelude.{
  ◌≡◌, ◌≢◌, refl, subst, ◌⊎◌, inl, inr, Option, none, some, List, [], ◌∷◌, ◌++◌, leb, length,
  Bool-cases,
}
use bankstmt_analyzer.Text.{Bytes, codes, bytes_eq}
use bankstmt_analyzer.Go.{Result, ok, err}
use bankstmt_analyzer.Db.{Uuid, Upload}
use bankstmt_analyzer.Db.Store.{NewUploadFile, to_int32, create_upload_with_files}
use bankstmt_analyzer.World.{World}
use bankstmt_analyzer.Http.Problem.{
  Problem, Response, problem, json, RequestInfo, write_problem, fill_problem, new_problem,
  write_error, internal,
}
use bankstmt_analyzer.Http.Uploads.Create.{CreateUploadResponse, queue, record_files, create}
use bankstmt_analyzer.Http.Uploads.{
  UploadConfig, Next, part, unreadable, Read, stored, refused, read_from, read_files, check_some,
  discard,
}
use bankstmt_analyzer.Http.Uploads.Kept.{IsStored}
use bankstmt_analyzer.Http.Uploads.Leaves.{
  Leaves, Named, Named-append, Reads, read_one_file-Reads, discard-Leaves,
}

module _ (uuid_text : Uuid → Bytes) (cfg : UploadConfig) (upload : Uuid)
    (Allowed : Bytes → Type 0) where
  abbrev pub ReadsLeave : List NewUploadFile × Option Problem × World → Type 0
  ReadsLeave (files, refusal, w) = Leaves (λ k. Named k files ⊎ Allowed k) w

  next_read :
      (rest : List Next) (files : List NewUploadFile) (r : Read) (w : World)
      → Reads uuid_text cfg (λ k. Named k files ⊎ Allowed k) (r, w)
      → ((files' : List NewUploadFile) (v : World)
          → Leaves (λ k. Named k files' ⊎ Allowed k) v
          → ReadsLeave (read_from uuid_text cfg upload rest files' v))
      → ReadsLeave (elim r [
        | refused q ↦ (files, some q, w)
        | stored f ↦ read_from uuid_text cfg upload rest (files ++ f ∷ []) w
      ])
  next_read rest files (refused p) w h ih = h
  next_read rest files (stored f) w (up, allowed) ih = ih (files ++ f ∷ []) w (
    up,
    λ k held. elim (allowed k held) [
      | inl same ↦ inl (Named-append k files f (inr same))
      | inr (inl named) ↦ inl (Named-append k files f (inl named))
      | inr (inr fine) ↦ inr fine
    ],
  )

  read_from-Leaves :
      (parts : List Next) (files : List NewUploadFile) (w : World)
      → Leaves (λ k. Named k files ⊎ Allowed k) w
      → ReadsLeave (read_from uuid_text cfg upload parts files w)
  unfolding read_from check_some
  read_from-Leaves [] [] w h = h
  read_from-Leaves [] (f ∷ fs) w h = h
  read_from-Leaves (unreadable e ∷ rest) files w h = h
  read_from-Leaves (part p ∷ rest) files w h =
      elim (Bool-cases (bytes_eq p.form_name (codes "files"))) [
        | inr other ↦ rw (read_from, other) (read_from-Leaves rest files w h)
        | inl is_file ↦ elim (Bool-cases (leb cfg.max_files (length files))) [
          | inl full ↦ rw (read_from, is_file, full) h
          | inr room ↦
              rw (read_from, is_file, room)
                (next_read rest files _ _
                  (read_one_file-Reads uuid_text cfg (λ k. Named k files ⊎ Allowed k) p upload
                    (to_int32 (length files)) w h)
                  (read_from-Leaves rest))
        ]
      ]

  module _ (r : RequestInfo) where
    -- Unless the answer is 503, a refusal leaves what is allowed.
    abbrev RefusalLeaves : Response CreateUploadResponse × World → Type 0
    RefusalLeaves (problem p, w) = (p.status ≡ 503) ⊎ Leaves Allowed w
    RefusalLeaves (json code answer, w) = Unit

    queue-Leaves :
        (row : Upload) (enqueued : Result (Unit {0})) (w : World)
        → RefusalLeaves (queue uuid_text cfg r row upload enqueued w)
    unfolding queue write_problem fill_problem new_problem
    queue-Leaves row (err e) w = inl refl
    queue-Leaves row (ok _) w = tt

    go_on :
        (enqueued : Result (Unit {0})) (files : List NewUploadFile) (found : Result Upload)
        (w : World)
        → Leaves (λ k. Named k files ⊎ Allowed k) w
        → RefusalLeaves (elim found [
          | err e ↦ (write_error r (internal e), discard files w)
          | ok u ↦ queue uuid_text cfg r u upload enqueued w
        ])
    unfolding write_error write_problem
    go_on enqueued files (err e) w h = inr (discard-Leaves Allowed files w h)
    go_on enqueued files (ok u) w h = queue-Leaves u enqueued w

    record_files-Leaves :
        (enqueued : Result (Unit {0})) (files : List NewUploadFile) (refusal : Option Problem)
        (w : World)
        → Leaves (λ k. Named k files ⊎ Allowed k) w
        → RefusalLeaves (elim refusal [
          | some p ↦ (write_problem r (some p), discard files w)
          | none ↦ record_files uuid_text cfg r upload enqueued files w
        ])
    unfolding record_files write_problem
    record_files-Leaves enqueued files (some p) w h = inr (discard-Leaves Allowed files w h)
    record_files-Leaves enqueued files none w h =
        let (found, db) = create_upload_with_files upload files w.db in
        go_on enqueued files found (record w { db = db }) h

    create-Leaves :
        (enqueued : Result (Unit {0})) (body : Option (List Next)) (w : World)
        → Leaves Allowed w
        → RefusalLeaves (create uuid_text cfg r upload enqueued body w)
    unfolding create write_problem read_files
    create-Leaves enqueued none w h = inr h
    create-Leaves enqueued (some parts) w (up, allowed) =
        let (files, refusal, w') = read_files uuid_text cfg upload parts w in
        record_files-Leaves enqueued files refusal w'
          (read_from-Leaves parts [] w (up, λ k held. inr (allowed k held)))

-- A request to create an upload that is answered with a problem document of another status than 503, whatever the
-- body, leaves no new blob when no call of the blob store fails: under every key at which something is stored
-- afterwards, something was stored before.
pub create-cleans_up :
    (uuid_text : Uuid → Bytes) (cfg : UploadConfig) (r : RequestInfo) (upload : Uuid)
    (enqueued : Result (Unit {0})) (body : Option (List Next)) (w : World) {p : Problem}
    {w' : World}
    → w.blob_faults ≡ []
    → create uuid_text cfg r upload enqueued body w ≡ (problem p, w')
    → p.status ≢ 503
    → (key : Bytes) → IsStored key w'.blobs
    → IsStored key w.blobs
create-cleans_up uuid_text cfg r upload enqueued body w up h other key held =
    let before = λ (k : Bytes). IsStored k w.blobs in
    elim (subst (RefusalLeaves uuid_text cfg upload before r) h
      (create-Leaves uuid_text cfg upload before r enqueued body w (up, λ k there. there))) [
        | inl busy ↦ absurd (other busy)
        | inr left ↦ left.1 key held
      ]
