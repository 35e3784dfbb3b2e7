-- ===== src/Http/Uploads/Leaves.antt =====
-- What `readOneFile` and `discard` (internal/http/uploads.go) leave in a blob store whose calls do not fail.
use mathlib.Core.Option.{none-ne-some}
use bankstmt_analyzer.Prelude.{
  ℕ, ◌+◌, ◌≡◌, refl, sym, subst, ap, ◌∙◌, ◌⊎◌, inl, inr, false, none, some, List, [], ◌∷◌, ◌++◌,
  arith, ltb, length, Bool-cases, Option-cases, take,
}
use bankstmt_analyzer.Text.{Bytes, bytes_eq, is_empty, has_prefix}
use bankstmt_analyzer.Text.Equal.{bytes_eq_sound, bytes_eq-ne}
use bankstmt_analyzer.Go.{Result, ok, err}
use bankstmt_analyzer.Db.{Uuid}
use bankstmt_analyzer.Db.Store.{NewUploadFile}
use bankstmt_analyzer.World.{World, find_blob, remove_blob, put_blob, delete_blob, reach}
use bankstmt_analyzer.Http.Uploads.{
  UploadConfig, Part, Read, stored, refused, read_one_file, check_size, put_part, head_error,
  body_error, storage_key, sanitise_filename, pdf_magic, discard, discard_blob,
}
use bankstmt_analyzer.Http.Uploads.Kept.{IsStored, find_blob-remove}

find_blob-removed :
    (key : Bytes) (blobs : List (Bytes × Bytes)) → find_blob key (remove_blob key blobs) ≡ none
unfolding find_blob remove_blob
find_blob-removed key [] = refl
find_blob-removed key ((k, body) ∷ rest) = elim (Bool-cases (bytes_eq k key)) [
  | inl same ↦ rw same (find_blob-removed key rest)
  | inr differs ↦ rw (remove_blob, differs, find_blob, differs) (find_blob-removed key rest)
]

-- What is left when a blob is removed is another one, which was there.
left_over :
    (k key : Bytes) (blobs : List (Bytes × Bytes))
    → IsStored k (remove_blob key blobs)
    → (bytes_eq key k ≡ false) × IsStored k blobs
left_over k key blobs (body, h) = elim (Bool-cases (bytes_eq key k)) [
  | inl same ↦ absurd (
      none-ne-some body (
        sym (find_blob-removed k blobs)
        ∙ ap (λ x. find_blob k (remove_blob x blobs)) (sym (bytes_eq_sound key k same))
        ∙ h))
  | inr differs ↦ (differs, (body, sym (find_blob-remove k key blobs differs) ∙ h))
]

-- A call that does not fail, and leaves under each key what is allowed.
abbrev pub Leaves : (Bytes → Type 0) → World → Type 0
Leaves Allowed w = (w.blob_faults ≡ []) × ((k : Bytes) → IsStored k w.blobs → Allowed k)

abbrev pub Named : Bytes → List NewUploadFile → Type 0
Named k [] = ⊥
Named k (f ∷ fs) = (f.storage_key ≡ k) ⊎ Named k fs

pub Named-append :
    (k : Bytes) (fs : List NewUploadFile) (f : NewUploadFile)
    → Named k fs ⊎ (f.storage_key ≡ k)
    → Named k (fs ++ f ∷ [])
Named-append k [] f (inr h) = inl h
Named-append k [] f (inl h) = absurd h
Named-append k (g ∷ gs) f (inl (inl h)) = inl h
Named-append k (g ∷ gs) f (inl (inr h)) = inr (Named-append k gs f (inl h))
Named-append k (g ∷ gs) f (inr h) = inr (Named-append k gs f (inr h))

discard_blob-none :
    (key : Bytes) (w : World)
    → w.blob_faults ≡ []
    → find_blob key w.blobs ≡ none
    → discard_blob key w ≡ w
unfolding discard_blob delete_blob reach
discard_blob-none key w up absent = ground arith

discard_blob-some :
    (key body : Bytes) (w : World)
    → w.blob_faults ≡ []
    → find_blob key w.blobs ≡ some body
    → discard_blob key w ≡ record w { blobs = remove_blob key w.blobs }
unfolding discard_blob delete_blob reach
discard_blob-some key body w up there = ground arith

discard_blob-Leaves :
    (Allowed : Bytes → Type 0) (key : Bytes) (w : World)
    → Leaves (λ k. (key ≡ k) ⊎ Allowed k) w
    → Leaves Allowed (discard_blob key w)
discard_blob-Leaves Allowed key w (up, allowed) = elim (Option-cases (find_blob key w.blobs)) [
  | inl absent ↦ subst (Leaves Allowed) (sym (discard_blob-none key w up absent)) (
    up,
    λ k held. elim (allowed k held) [
      | inl same ↦
          absurd (none-ne-some held.0 (sym absent ∙ ap (λ x. find_blob x w.blobs) same ∙ held.1))
      | inr fine ↦ fine
    ],
  )
  | inr (body, there) ↦ subst (Leaves Allowed) (sym (discard_blob-some key body w up there)) (
    up,
    λ k held.
        let (differs, before) = left_over k key w.blobs held in
        elim (allowed k before) [
          | inl same ↦ absurd (bytes_eq-ne key k differs same)
          | inr fine ↦ fine
        ],
  )
]

pub discard-Leaves :
    (Allowed : Bytes → Type 0) (fs : List NewUploadFile) (w : World)
    → Leaves (λ k. Named k fs ⊎ Allowed k) w
    → Leaves Allowed (discard fs w)
unfolding discard
discard-Leaves Allowed [] w (up, allowed) =
    (up, λ k held. elim (allowed k held) [ inl nothing ↦ absurd nothing | inr fine ↦ fine ])
discard-Leaves Allowed (f ∷ fs) w (up, allowed) =
    discard-Leaves Allowed fs (discard_blob f.storage_key w) (
      discard_blob-Leaves (λ k. Named k fs ⊎ Allowed k) f.storage_key w
        (
          up,
          λ k held. elim (allowed k held) [
            | inl (inl same) ↦ inl same
            | inl (inr named) ↦ inr (inl named)
            | inr fine ↦ inr (inr fine)
          ],
        ))

put_blob-eq :
    (key body : Bytes) (w : World)
    → w.blob_faults ≡ []
    → put_blob key body w ≡ (ok tt, record w { blobs = (key, body) ∷ remove_blob key w.blobs })
unfolding put_blob reach
put_blob-eq key body w up = ground arith

put_or_before :
    (k key body : Bytes) (blobs : List (Bytes × Bytes))
    → IsStored k ((key, body) ∷ remove_blob key blobs)
    → (key ≡ k) ⊎ IsStored k blobs
unfolding find_blob
put_or_before k key body blobs (held, h) = elim (Bool-cases (bytes_eq key k)) [
  | inl same ↦ inl (bytes_eq_sound key k same)
  | inr differs ↦ inr (left_over k key blobs (held, rw differs at h)).1
]

module _ (uuid_text : Uuid → Bytes) (cfg : UploadConfig) (Allowed : Bytes → Type 0) where
  -- What `Put` may add is under its key.
  abbrev Adds : Bytes → Result ℕ × World → Type 0
  Adds key (ok n, w) = Leaves (λ k. (key ≡ k) ⊎ Allowed k) w
  Adds key (err e, w) = Leaves Allowed w

  put_part-Adds :
      (key : Bytes) (p : Part) (w : World)
      → Leaves Allowed w
      → Adds key (put_part uuid_text cfg key p w)
  unfolding put_part
  put_part-Adds key p w (up, allowed) =
      elim (Option-cases (body_error (cfg.max_file_bytes + 1) p)) [
        | inr (e, broken) ↦ rw (put_part, broken) (up, allowed)
        | inl whole ↦
            let content = take (cfg.max_file_bytes + 1) p.body in
            rw (put_part, whole, put_blob-eq key content w up)
              (
                up,
                λ k held. elim (put_or_before k key content w.blobs held) [
                  | inl same ↦ inl same
                  | inr before ↦ inr (allowed k before)
                ],
              )
      ]

  abbrev pub Reads : Read × World → Type 0
  Reads (stored f, w) = Leaves (λ k. (f.storage_key ≡ k) ⊎ Allowed k) w
  Reads (refused p, w) = Leaves Allowed w

  check_size-Reads :
      (filename key : Bytes) (position : ℕ) (p : Part) (r : Result ℕ × World)
      → Adds key r
      → Reads (check_size uuid_text cfg filename key position p r)
  unfolding check_size
  check_size-Reads filename key position p (err e, w) h = h
  check_size-Reads filename key position p (ok size, w) h =
      elim (Bool-cases (ltb cfg.max_file_bytes size)) [
        | inl large ↦ rw large (discard_blob-Leaves Allowed key w h)
        | inr fits ↦ rw fits h
      ]

  pub read_one_file-Reads :
      (p : Part) (upload : Uuid) (position : ℕ) (w : World)
      → Leaves Allowed w
      → Reads (read_one_file uuid_text cfg p upload position w)
  unfolding read_one_file
  read_one_file-Reads p upload position w h =
      let key = storage_key uuid_text cfg upload p.file_id in
      elim (Bool-cases (is_empty (sanitise_filename p.file_name))) [
        | inl none_given ↦ rw (read_one_file, none_given) h
        | inr named ↦ elim (Option-cases (head_error p)) [
          | inr (e, broken) ↦ rw (read_one_file, named, broken) h
          | inl fine ↦ elim (Bool-cases (has_prefix (take (length pdf_magic) p.body) pdf_magic)) [
            | inr other ↦ rw (read_one_file, named, fine, other) h
            | inl pdf ↦
                rw (read_one_file, named, fine, pdf)
                  (check_size-Reads (sanitise_filename p.file_name) key position p
                    (put_part uuid_text cfg key p w) (put_part-Adds key p w h))
          ]
        ]
      ]
