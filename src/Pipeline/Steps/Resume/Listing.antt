-- ===== src/Pipeline/Steps/Resume/Listing.antt =====
-- The files of an upload in the order in which `ListUploadFiles` (internal/db/upload_files.sql.go) gives them.
use bankstmt_analyzer.Prelude.{
  ◌≡◌, refl, true, List, [], ◌∷◌, arith, ◌==◌, All, Bool-cases, inl, inr, leb,
}
use bankstmt_analyzer.Db.{Uuid, UploadFile}
use bankstmt_analyzer.Db.Queries.{where_rows, any_row, order_by_position, insert_position}
use bankstmt_analyzer.World.{World}

All-insert_position :
    (P : UploadFile → Type 0) (f : UploadFile) (fs : List UploadFile)
    → P f
    → All P fs
    → All P (insert_position f fs)
unfolding insert_position
All-insert_position P f [] e h = (e, tt)
All-insert_position P f (g ∷ gs) e h = elim (Bool-cases (leb f.position g.position)) [
  | inl first ↦ rw first (e, h)
  | inr later ↦ rw later (h.0, All-insert_position P f gs e h.1)
]

pub All-order_by_position :
    (P : UploadFile → Type 0) (fs : List UploadFile) → All P fs → All P (order_by_position fs)
unfolding order_by_position
All-order_by_position P [] h = tt
All-order_by_position P (f ∷ fs) h =
    All-insert_position P f (order_by_position fs) h.0 (All-order_by_position P fs h.1)

insert_position-some :
    (f : UploadFile) (fs : List UploadFile)
    → (g : UploadFile) × (gs : List UploadFile) × (insert_position f fs ≡ g ∷ gs)
unfolding insert_position
insert_position-some f [] = (f, [], refl)
insert_position-some f (g ∷ gs) = elim (Bool-cases (leb f.position g.position)) [
  | inl first ↦ (f, g ∷ gs, rw first refl)
  | inr later ↦ (g, insert_position f gs, rw later refl)
]

-- The files of an upload, in order.
abbrev pub files_of : Uuid → World → List UploadFile
files_of u w = order_by_position (where_rows (λ f. f.upload_id == u) w.db.upload_files)

-- An upload with files has files in order.
pub files_of-some :
    (u : Uuid) (w : World)
    → any_row (λ f. f.upload_id == u) w.db.upload_files ≡ true
    → (g : UploadFile) × (gs : List UploadFile) × (files_of u w ≡ g ∷ gs)
unfolding order_by_position
files_of-some u w h = go w.db.upload_files h
  where
    go :
        (fs : List UploadFile)
        → any_row (λ f. f.upload_id == u) fs ≡ true
        → (g : UploadFile) × (gs : List UploadFile) × (order_by_position
              (where_rows (λ f. f.upload_id == u) fs)
            ≡ g ∷ gs)
    go [] h = absurd (ground arith)
    go (f ∷ fs) h = elim (Bool-cases (f.upload_id == u)) [
      | inl mine ↦
          rw mine
            (insert_position-some f (order_by_position (where_rows (λ f. f.upload_id == u) fs)))
      | inr other ↦ rw other (go fs (rw other at h))
    ]

pub any_row-listed :
    (u : Uuid) (rows : List UploadFile) {f : UploadFile} {fs : List UploadFile}
    → where_rows (λ f. f.upload_id == u) rows ≡ f ∷ fs
    → any_row (λ f. f.upload_id == u) rows ≡ true
any_row-listed u [] h = cc
any_row-listed u (r ∷ rows) h = elim (Bool-cases (r.upload_id == u)) [
  | inl mine ↦ rw mine refl
  | inr other ↦ rw other (any_row-listed u rows (rw other at h))
]
