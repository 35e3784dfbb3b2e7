-- ===== src/Http/Uploads/Kept.antt =====
-- What stands in the blob store behind `readFiles` (internal/http/uploads.go).
use bankstmt_analyzer.Prelude.{
  ℕ, ◌+◌, ◌≡◌, refl, sym, subst, false, Option, none, some, List, [], ◌∷◌, ◌++◌, arith, All,
  All-append, leb, ltb, length, ap, ◌∙◌, append-nil, append_assoc, take-all, Bool-cases,
  Option-cases, inl, inr, take,
}
use bankstmt_analyzer.Text.{Bytes, codes, bytes_eq, is_empty, has_prefix, quote}
use bankstmt_analyzer.Text.Equal.{bytes_eq_refl, bytes_eq_sound}
use bankstmt_analyzer.Go.{Result, ok, err, wrap}
use bankstmt_analyzer.Go.Monad.{modify, ◌>>◌}
use bankstmt_analyzer.Go.Hoare.{OnOk}
use bankstmt_analyzer.Db.{Uuid}
use bankstmt_analyzer.Db.Store.{NewUploadFile, to_int32}
use bankstmt_analyzer.World.{World, find_blob, remove_blob, put_blob, reach}
use bankstmt_analyzer.Http.Problem.{Problem}
use bankstmt_analyzer.Http.Uploads.Parts.{
  files_of, Describes, AllDescribe, AllDescribe-snoc, Keeps, pdf_key, All-OneOf, OneOf,
}
use bankstmt_analyzer.Http.Uploads.{
  UploadConfig, Part, Next, part, unreadable, Read, stored, refused, read_one_file, read_from,
  read_files, check_some, check_size, put_part, head_error, body_error, storage_key,
  sanitise_filename, pdf_magic,
}

-- Something is stored under the key.
abbrev pub IsStored : Bytes → List (Bytes × Bytes) → Type 0
IsStored key blobs = (body : Bytes) × (find_blob key blobs ≡ some body)

pub find_blob-remove :
    (key other : Bytes) (blobs : List (Bytes × Bytes))
    → bytes_eq other key ≡ false
    → find_blob key (remove_blob other blobs) ≡ find_blob key blobs
unfolding find_blob remove_blob
find_blob-remove key other [] h = refl
find_blob-remove key other ((k, body) ∷ rest) h = elim (Bool-cases (bytes_eq k other)) [
  | inr differs ↦ rw (differs, find_blob-remove key other rest h) refl
  | inl same ↦ rw (same, bytes_eq_sound k other same, h, find_blob-remove key other rest h) refl
]

module _ (Q : Bytes → Bytes → Type 0) where
  -- What was stored is, or something else is in its place, when a blob is put.
  Keeps-put :
      (key other body : Bytes) (blobs : List (Bytes × Bytes))
      → Q other body
      → Keeps Q key blobs
      → Keeps Q key ((other, body) ∷ remove_blob other blobs)
  unfolding find_blob
  Keeps-put key other body blobs q (held, h, good) = elim (Bool-cases (bytes_eq other key)) [
    | inl same ↦ (body, rw same refl, subst (λ k. Q k body) (bytes_eq_sound other key same) q)
    | inr differs ↦ (held, rw (differs, find_blob-remove key other blobs differs) h, good)
  ]

find_blob-head :
    (key body : Bytes) (rest : List (Bytes × Bytes))
    → find_blob key ((key, body) ∷ rest) ≡ some body
unfolding find_blob
find_blob-head key body rest = rw (bytes_eq_refl key) refl

reach-blobs : (w : World) → (reach w).1.blobs ≡ w.blobs
unfolding reach
reach-blobs w = ground arith

module _ (uuid_text : Uuid → Bytes) (cfg : UploadConfig) (Q : Bytes → Bytes → Type 0) where
  -- The blob is there, and so are those that were.
  abbrev Puts : Bytes → World → World → Type 0
  Puts key w w' = ((k : Bytes) → Keeps Q k w.blobs → Keeps Q k w'.blobs) × Keeps Q key w'.blobs

  put_blob-Puts :
      (key body : Bytes) (w : World)
      → OnOk (λ _ w'. Q key body → Puts key w w') (put_blob key body w)
  unfolding put_blob
  put_blob-Puts key body w = go (reach w).0 (reach w).1 (reach-blobs w)
    where
      go :
          (r : Result (Unit {0})) (v : World)
          → v.blobs ≡ w.blobs
          → OnOk
              (λ _ w'. Q key body → Puts key w w')
              (((λ (_ : World). (r, v))
                  >> modify (λ u. record u { blobs = (key, body) ∷ remove_blob key u.blobs }))
                w)
      go (err e) v same = tt
      go (ok _) v same = λ q. (
        λ k h. Keeps-put Q k key body v.blobs q (subst (Keeps Q k) (sym same) h),
        (body, find_blob-head key body (remove_blob key v.blobs), q),
      )

  -- The number of bytes that were stored, and what was stored if it was the whole part.
  abbrev PutsPart : Bytes → Part → World → ℕ → World → Type 0
  PutsPart key p w size w' =
      (size ≡ length (take (cfg.max_file_bytes + 1) p.body))
      × (Q key (take (cfg.max_file_bytes + 1) p.body) → Puts key w w')

  put_part-Puts :
      (key : Bytes) (p : Part) (w : World)
      → OnOk (PutsPart key p w) (put_part uuid_text cfg key p w)
  unfolding put_part
  put_part-Puts key p w = elim (Option-cases (body_error (cfg.max_file_bytes + 1) p)) [
    | inr (e, broken) ↦ rw (put_part, broken) tt
    | inl whole ↦
        let content = take (cfg.max_file_bytes + 1) p.body in
        rw (put_part, whole)
          (go (put_blob key content w).0 (put_blob key content w).1 (put_blob-Puts key content w))
  ]
    where
      go :
          (r : Result (Unit {0})) (v : World)
          → OnOk (λ _ w'. Q key (take (cfg.max_file_bytes + 1) p.body) → Puts key w w') (r, v)
          → OnOk (PutsPart key p w) (
            elim r as (λ _. Result ℕ) [
              | ok _ ↦ ok (length (take (cfg.max_file_bytes + 1) p.body))
              | err e ↦ err (wrap (codes "storage: put " ++ quote key) e)
            ],
            v,
          )
      go (ok _) v h = (refl, h)
      go (err e) v h = tt

  abbrev Stores : Part → World → Read × World → Type 0
  Stores p w (stored f, w') = Puts f.storage_key w w' × Describes p f
  Stores p w (refused problem, w') = Unit

  check_size-Stores :
      (key : Bytes) (position : ℕ) (p : Part) (w : World) (r : Result ℕ × World)
      → Q key p.body
      → OnOk (PutsPart key p w) r
      → Stores p w (check_size uuid_text cfg (sanitise_filename p.file_name) key position p r)
  unfolding check_size
  check_size-Stores key position p w (err e, w') q h = tt
  check_size-Stores key position p w (ok size, w') q h =
      elim (Bool-cases (ltb cfg.max_file_bytes size)) [
        | inl large ↦ rw large tt
        | inr fits ↦
            let same = take-all (cfg.max_file_bytes + 1) p.body (ground (arith, h.0, fits)) in
            rw fits (
              h.1 (subst (Q key) (sym same) q),
              record { id = refl; name = refl; content_type = refl; size = h.0 ∙ ap length same },
            )
      ]

  read_one_file-Stores :
      (p : Part) (upload : Uuid) (position : ℕ) (w : World)
      → Q (pdf_key uuid_text upload p.file_id) p.body
      → Stores p w (read_one_file uuid_text cfg p upload position w)
  unfolding read_one_file storage_key
  read_one_file-Stores p upload position w q =
      let key = pdf_key uuid_text upload p.file_id in
      elim (Bool-cases (is_empty (sanitise_filename p.file_name))) [
        | inl none_given ↦ rw (read_one_file, none_given) tt
        | inr named ↦ elim (Option-cases (head_error p)) [
          | inr (e, broken) ↦ rw (read_one_file, named, broken) tt
          | inl fine ↦ elim (Bool-cases (has_prefix (take (length pdf_magic) p.body) pdf_magic)) [
            | inr other ↦ rw (read_one_file, named, fine, other) tt
            | inl pdf ↦
                rw (read_one_file, named, fine, pdf)
                  (check_size-Stores key position p w (put_part uuid_text cfg key p w) q
                    (put_part-Puts key p w))
          ]
        ]
      ]

  -- Each file has a blob.
  abbrev pub AllKept : List NewUploadFile → World → Type 0
  AllKept files w = All (λ f. Keeps Q f.storage_key w.blobs) files

  AllKept-mono :
      (files : List NewUploadFile) (w w' : World)
      → ((k : Bytes) → Keeps Q k w.blobs → Keeps Q k w'.blobs)
      → AllKept files w
      → AllKept files w'
  AllKept-mono [] w w' h all = tt
  AllKept-mono (f ∷ fs) w w' h all = (h f.storage_key all.0, AllKept-mono fs w w' h all.1)

  -- The files are those of the parts, and stored.
  abbrev Reading : List Part → List NewUploadFile → World → Type 0
  Reading ps files w = AllDescribe ps files × AllKept files w

  abbrev pub Outcome : List Part → List NewUploadFile × Option Problem × World → Type 0
  Outcome ps (files, none, w) = Reading ps files w
  Outcome ps (files, some p, w) = Unit

  next_stored :
      (upload : Uuid) (rest : List Next) (all done : List Part) (p : Part)
      (files : List NewUploadFile) (w : World) (r : Read) (w' : World)
      → Reading done files w
      → Stores p w (r, w')
      → ((files' : List NewUploadFile) (v : World)
          → Reading (done ++ p ∷ []) files' v
          → Outcome all (read_from uuid_text cfg upload rest files' v))
      → Outcome all (elim r [
        | refused problem ↦ (files, some problem, w')
        | stored f ↦ read_from uuid_text cfg upload rest (files ++ f ∷ []) w'
      ])
  next_stored upload rest all done p files w (refused problem) w' h new ih = tt
  next_stored upload rest all done p files w (stored f) w' h new ih = ih (files ++ f ∷ []) w' (
    AllDescribe-snoc done files p f h.0 new.1,
    All-append (λ g. Keeps Q g.storage_key w'.blobs) files (f ∷ [])
        (AllKept-mono files w w' new.0.0 h.1) (new.0.1, tt),
  )

  read_from-Reading :
      (upload : Uuid) (parts : List Next) (done : List Part) (files : List NewUploadFile)
      (w : World)
      → All (λ p. Q (pdf_key uuid_text upload p.file_id) p.body) (files_of parts)
      → Reading done files w
      → Outcome (done ++ files_of parts) (read_from uuid_text cfg upload parts files w)
  unfolding read_from check_some
  read_from-Reading upload [] done [] w q h = tt
  read_from-Reading upload [] done (f ∷ fs) w q h =
      subst (λ ps. Reading ps (f ∷ fs) w) (sym (append-nil done)) h
  read_from-Reading upload (unreadable e ∷ rest) done files w q h = tt
  read_from-Reading upload (part p ∷ rest) done files w q h =
      elim (Bool-cases (bytes_eq p.form_name (codes "files"))) [
        | inr other ↦
            rw (read_from, other) (read_from-Reading upload rest done files w (rw other at q) h)
        | inl is_file ↦ elim (Bool-cases (leb cfg.max_files (length files))) [
          | inl full ↦ rw (read_from, is_file, full) tt
          | inr room ↦
              let q' : All (λ p. Q (pdf_key uuid_text upload p.file_id) p.body)
                  (p ∷ files_of rest) =
                rw is_file at q in
              rw (read_from, is_file, room)
                (next_stored upload rest (done ++ p ∷ files_of rest) done p files w _ _ h
                  (read_one_file-Stores p upload (to_int32 (length files)) w q'.0)
                  (λ files' v h'.
                    subst (λ ps. Outcome ps (read_from uuid_text cfg upload rest files' v))
                      (append_assoc done (p ∷ []) (files_of rest))
                      (read_from-Reading upload rest (done ++ p ∷ []) files' v q'.1 h')))
        ]
      ]

-- Unless the form is refused, the files are those of its parts, and each stands in the blob store.
pub read_files-Reading :
    (uuid_text : Uuid → Bytes) (cfg : UploadConfig) (upload : Uuid) (parts : List Next) (w : World)
    → Outcome uuid_text cfg
        (OneOf uuid_text upload (files_of parts))
        (files_of parts)
        (read_files uuid_text cfg upload parts w)
unfolding read_files
read_files-Reading uuid_text cfg upload parts w =
    read_from-Reading uuid_text cfg (OneOf uuid_text upload (files_of parts)) upload parts [] [] w
      (All-OneOf uuid_text upload (files_of parts)) (tt, tt)
