-- ===== src/Pipeline/Steps/Resume/Rows.antt =====
-- The rows of an upload's files that have a text, and those that do not (internal/pipeline/steps.go).
use bankstmt_analyzer.Prelude.{
  ℕ, ◌≡◌, refl, sym, subst, ◌⊎◌, inl, inr, true, false, List, [], ◌∷◌, map, arith, ◌==◌, All, In,
  Bool-cases, if◌then◌else◌,
}
use bankstmt_analyzer.Text.{Bytes, is_empty}
use bankstmt_analyzer.Text.Space.{trim_space}
use bankstmt_analyzer.Db.{Uuid, UploadFile}
use bankstmt_analyzer.Db.Queries.{where_rows, with_ocr, order_by_position, insert_position}
use bankstmt_analyzer.Pipeline.Steps.{has_ocr}

-- The rows of the upload that have no text yet have their ids in the list.
abbrev pub Left : Uuid → List Uuid → List UploadFile → Type 0
Left u ids [] = Unit
Left u ids (g ∷ gs) =
    ((g.upload_id == u ≡ false) ⊎ (has_ocr g ≡ true) ⊎ In g.id ids) × Left u ids gs

-- The ids of the files without a text.
abbrev pub unread : List UploadFile → List Uuid
unread [] = []
unread (f ∷ fs) = if has_ocr f then unread fs else f.id ∷ unread fs

unread-later :
    (i : Uuid) (f : UploadFile) (fs : List UploadFile) → In i (unread fs) → In i (unread (f ∷ fs))
unread-later i f fs h = ground arith

pub unread-read :
    (f : UploadFile) (fs : List UploadFile) → has_ocr f ≡ true → unread (f ∷ fs) ≡ unread fs
unread-read f fs e = rw e refl

pub unread-new :
    (f : UploadFile) (fs : List UploadFile) → has_ocr f ≡ false → unread (f ∷ fs) ≡ f.id ∷ unread fs
unread-new f fs e = rw e refl

pub Left-with_ocr :
    (u : Uuid) (text : Bytes) (pages id : ℕ) (ids : List Uuid) (rows : List UploadFile)
    → is_empty (trim_space text) ≡ false
    → Left u (id ∷ ids) rows
    → Left u ids (map (with_ocr text pages id) rows)
unfolding has_ocr
Left-with_ocr u text pages id ids [] some_text h = tt
Left-with_ocr u text pages id ids (g ∷ gs) some_text h =
    (ground arith, Left-with_ocr u text pages id ids gs some_text h.1)

Left-mono :
    (u : Uuid) (ids ids' : List Uuid) (rows : List UploadFile)
    → ((i : Uuid) → In i ids → In i ids')
    → Left u ids rows
    → Left u ids' rows
Left-mono u ids ids' [] sub h = tt
Left-mono u ids ids' (g ∷ gs) sub (inl e, h) = (inl e, Left-mono u ids ids' gs sub h)
Left-mono u ids ids' (g ∷ gs) sub (inr (inl e), h) = (inr (inl e), Left-mono u ids ids' gs sub h)
Left-mono u ids ids' (g ∷ gs) sub (inr (inr i), h) =
    (inr (inr (sub _ i)), Left-mono u ids ids' gs sub h)

In-insert_position :
    (i : Uuid) (f : UploadFile) (fs : List UploadFile)
    → In i (unread (f ∷ fs))
    → In i (unread (insert_position f fs))
unfolding insert_position
In-insert_position i f [] h = h
In-insert_position i f (g ∷ gs) h = ground (arith, In-insert_position i f gs)

listed_first :
    (r : UploadFile) (fs : List UploadFile)
    → (has_ocr r ≡ true) ⊎ In r.id (unread (insert_position r fs))
listed_first r fs = elim (Bool-cases (has_ocr r)) [
  | inl read ↦ inl read
  | inr unread ↦ inr (In-insert_position r.id r fs (rw unread (inl refl)))
]

where_rows-mine :
    (u : Uuid) (r : UploadFile) (rows : List UploadFile)
    → r.upload_id == u ≡ true
    → where_rows (λ f. f.upload_id == u) (r ∷ rows) ≡ r ∷ where_rows (λ f. f.upload_id == u) rows
where_rows-mine u r rows mine = rw mine refl

where_rows-other :
    (u : Uuid) (r : UploadFile) (rows : List UploadFile)
    → r.upload_id == u ≡ false
    → where_rows (λ f. f.upload_id == u) (r ∷ rows) ≡ where_rows (λ f. f.upload_id == u) rows
where_rows-other u r rows other = rw other refl

-- Every row of the upload is listed.
pub Left-listed :
    (u : Uuid) (rows : List UploadFile)
    → Left u (unread (order_by_position (where_rows (λ f. f.upload_id == u) rows))) rows
unfolding order_by_position
Left-listed u [] = tt
Left-listed u (r ∷ rows) = elim (Bool-cases (r.upload_id == u)) [
  | inr other ↦
      subst (λ fs. Left u (unread (order_by_position fs)) (r ∷ rows))
        (sym (where_rows-other u r rows other)) (inl other, Left-listed u rows)
  | inl mine ↦
      subst (λ fs. Left u (unread (order_by_position fs)) (r ∷ rows))
        (sym (where_rows-mine u r rows mine))
        (
          inr (listed_first r _),
          Left-mono u _ _ rows (λ i h. In-insert_position i r _ (unread-later i r _ h))
              (Left-listed u rows),
        )
]

-- Rows of the upload that all have a text.
unfoldable pub AllRead : List UploadFile → Type 0
AllRead fs = All (λ f. has_ocr f ≡ true) fs

AllRead-insert_position :
    (f : UploadFile) (fs : List UploadFile)
    → has_ocr f ≡ true
    → AllRead fs
    → AllRead (insert_position f fs)
unfolding AllRead insert_position
AllRead-insert_position f [] e h = (e, tt)
AllRead-insert_position f (g ∷ gs) e h = ground (arith, AllRead-insert_position f gs)

pub AllRead-listed :
    (u : Uuid) (rows : List UploadFile)
    → Left u [] rows
    → AllRead (order_by_position (where_rows (λ f. f.upload_id == u) rows))
unfolding order_by_position AllRead
AllRead-listed u [] h = tt
AllRead-listed u (r ∷ rows) h = elim (Bool-cases (r.upload_id == u)) [
  | inr other ↦ rw other (AllRead-listed u rows h.1)
  | inl mine ↦ rw mine (AllRead-insert_position r _ (ground arith) (AllRead-listed u rows h.1))
]
