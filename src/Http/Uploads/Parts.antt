-- ===== src/Http/Uploads/Parts.antt =====
-- The parts of a request that are files, and what is recorded and stored of them (internal/http/uploads.go).
use bankstmt_analyzer.Prelude.{
  ◌≡◌, refl, ◌⊎◌, inl, inr, Option, none, some, List, [], ◌∷◌, ◌++◌, All, length, if◌then◌else◌,
}
use bankstmt_analyzer.Text.{Bytes, codes, bytes_eq, is_empty}
use bankstmt_analyzer.Db.{Uuid}
use bankstmt_analyzer.Db.Store.{NewUploadFile}
use bankstmt_analyzer.World.{find_blob}
use bankstmt_analyzer.Http.Uploads.{Part, Next, part, unreadable, sanitise_filename}

-- The parts with the form name `files`, in order.
abbrev pub files_of : List Next → List Part
files_of [] = []
files_of (unreadable e ∷ rest) = files_of rest
files_of (part p ∷ rest) =
    if bytes_eq p.form_name (codes "files") then p ∷ files_of rest else files_of rest

abbrev pub files_in : Option (List Next) → List Part
files_in none = []
files_in (some parts) = files_of parts

-- What is recorded of a part: its id, its sanitised name, its type and how many bytes it has.
pub record Describes (p : Part) (f : NewUploadFile) : Type 0 where
  pub id : f.id ≡ p.file_id
  pub name : f.filename ≡ sanitise_filename p.file_name
  pub content_type :
      f.content_type ≡ (if is_empty p.content_type then codes "application/pdf" else p.content_type)
  pub size : f.size_bytes ≡ length p.body

-- A file for each part, in order, and no other.
abbrev pub AllDescribe : List Part → List NewUploadFile → Type 0
AllDescribe [] [] = Unit
AllDescribe [] (f ∷ fs) = ⊥
AllDescribe (p ∷ ps) [] = ⊥
AllDescribe (p ∷ ps) (f ∷ fs) = Describes p f × AllDescribe ps fs

pub AllDescribe-snoc :
    (ps : List Part) (fs : List NewUploadFile) (p : Part) (f : NewUploadFile)
    → AllDescribe ps fs
    → Describes p f
    → AllDescribe (ps ++ p ∷ []) (fs ++ f ∷ [])
AllDescribe-snoc [] [] p f h new = (new, tt)
AllDescribe-snoc [] (g ∷ fs) p f h new = absurd h
AllDescribe-snoc (q ∷ ps) [] p f h new = absurd h
AllDescribe-snoc (q ∷ ps) (g ∷ fs) p f h new = (h.0, AllDescribe-snoc ps fs p f h.1 new)

-- Under the key stands a content of which `Q` holds.
abbrev pub Keeps : (Bytes → Bytes → Type 0) → Bytes → List (Bytes × Bytes) → Type 0
Keeps Q key blobs = (body : Bytes) × (find_blob key blobs ≡ some body) × Q key body

module _ (uuid_text : Uuid → Bytes) (upload : Uuid) where
  -- Where a file of the upload is stored.
  abbrev pub pdf_key : Uuid → Bytes
  pdf_key file =
      codes "uploads/" ++ (uuid_text upload ++ (codes "/" ++ (uuid_text file ++ codes ".pdf")))

  -- The content is that of one of the parts, all of it, and the key is made of that part's id.
  abbrev pub OneOf : List Part → Bytes → Bytes → Type 0
  OneOf [] key body = ⊥
  OneOf (p ∷ ps) key body = ((key ≡ pdf_key p.file_id) × (body ≡ p.body)) ⊎ OneOf ps key body

  among :
      (all ps : List Part)
      → ((key body : Bytes) → OneOf ps key body → OneOf all key body)
      → All (λ p. OneOf all (pdf_key p.file_id) p.body) ps
  among all [] h = tt
  among all (p ∷ ps) h =
      (h (pdf_key p.file_id) p.body (inl (refl, refl)), among all ps (λ k b m. h k b (inr m)))

  pub All-OneOf : (ps : List Part) → All (λ p. OneOf ps (pdf_key p.file_id) p.body) ps
  All-OneOf ps = among ps ps (λ _ _ m. m)
