-- ===== src/Text/Path/Clean.antt =====
-- `path.Clean` of Go, on the elements between the slashes.
use mathlib.Core.List.{reverse, reverse_aux, cons-ne-nil, reverse-append}
use bankstmt_analyzer.Prelude.{
  ℕ, ◌≡◌, ◌≢◌, refl, ap, ◌⊎◌, inl, inr, Bool, true, false, ◌||◌, List, [], ◌∷◌, ◌++◌, arith, ◌==◌,
  if◌then◌else◌, All, Bool-cases,
}
use bankstmt_analyzer.Text.{Bytes, codes, bytes_eq, is_empty, join, has_prefix}
use bankstmt_analyzer.Text.Equal.{bytes_eq_sound, bytes_eq-ne}
use bankstmt_analyzer.Text.Search.{Lacks}

-- A byte joins the first element.
abbrev push_byte : ℕ → List Bytes → List Bytes
push_byte c [] = (c ∷ []) ∷ []
push_byte c (e ∷ rest) = (c ∷ e) ∷ rest

-- The elements of a path, empty ones included.
unfoldable pub elements : Bytes → List Bytes
elements [] = [] ∷ []
elements (c ∷ s) = let rest = elements s in if c == b'/' then [] ∷ rest else push_byte c rest

abbrev pub dot_dot : Bytes
dot_dot = codes ".."

-- The element `..` takes back the last one, if there is one that it can take back.
abbrev back_up : Bool → List Bytes → List Bytes
back_up rooted [] = if rooted then [] else dot_dot ∷ []
back_up rooted (e ∷ out) = if bytes_eq e dot_dot then dot_dot ∷ e ∷ out else out

-- The loop over the elements; `out` has those that are kept, the last one first.
unfoldable pub clean_from : Bool → List Bytes → List Bytes → List Bytes
unfolding bytes_eq
clean_from rooted [] out = out
clean_from rooted (e ∷ rest) out = clean_from rooted rest (
    if is_empty e || bytes_eq e (codes ".")
    then out
    else if bytes_eq e dot_dot
    then back_up rooted out
    else e ∷ out)

-- `path.IsAbs`
abbrev pub is_abs : Bytes → Bool
is_abs [] = false
is_abs (c ∷ s) = c == b'/'

abbrev pub or_dot : Bytes → Bytes
or_dot [] = codes "."
or_dot (c ∷ s) = c ∷ s

-- `path.Clean`
unfoldable pub path_clean : Bytes → Bytes
unfolding clean_from elements join
path_clean s =
    let kept = join (reverse (clean_from (is_abs s) (elements s) [])) (codes "/") in
    if is_abs s then b'/' ∷ kept else or_dot kept

-- An element that names a file or a directory.
pub record IsName (e : Bytes) : Type 0 where
  pub not_empty : e ≢ []
  pub not_dot : e ≢ codes "."
  pub not_up : e ≢ dot_dot
  pub no_slash : Lacks b'/' e

-- Only names are kept, or the path leads up at first.
abbrev Kept : List Bytes → Type 0
Kept out = All IsName out ⊎ ((front : List Bytes) × (out ≡ front ++ dot_dot ∷ []))

push_byte-Lacks :
    (c : ℕ) (es : List Bytes) → c ≢ b'/' → All (Lacks b'/') es → All (Lacks b'/') (push_byte c es)
push_byte-Lacks c [] n h = ((n, tt), tt)
push_byte-Lacks c (e ∷ es) n h = ((n, h.0), h.1)

elements-Lacks : (s : Bytes) → All (Lacks b'/') (elements s)
unfolding elements
elements-Lacks [] = (tt, tt)
elements-Lacks (c ∷ s) = elim (Bool-cases (c == b'/')) [
  | inl e ↦ rw e (tt, elements-Lacks s)
  | inr n ↦ rw n (push_byte-Lacks c (elements s) (λ e. ground arith) (elements-Lacks s))
]

head_or : Bytes → List Bytes → Bytes
head_or d [] = d
head_or d (e ∷ out) = e

tail_of : List Bytes → List Bytes
tail_of [] = []
tail_of (e ∷ out) = out

pop-Kept : (e : Bytes) (out : List Bytes) → e ≢ dot_dot → Kept (e ∷ out) → Kept out
unfolding head_or tail_of
pop-Kept e out n (inl names) = inl names.1
pop-Kept e out n (inr ([], h)) = absurd (n (ap (head_or e) h))
pop-Kept e out n (inr (f ∷ front, h)) = inr (front, ap tail_of h)

push-Kept : (e : Bytes) (out : List Bytes) → IsName e → Kept out → Kept (e ∷ out)
push-Kept e out h (inl names) = inl (h, names)
push-Kept e out h (inr (front, k)) = inr (e ∷ front, ap (λ t. e ∷ t) k)

up-Kept : (e : Bytes) (out : List Bytes) → e ≡ dot_dot → Kept (e ∷ out) → Kept (dot_dot ∷ e ∷ out)
up-Kept e out u (inl names) = absurd (names.0.not_up u)
up-Kept e out u (inr (front, h)) = inr (dot_dot ∷ front, ap (λ t. dot_dot ∷ t) h)

back_up-Kept : (e : Bytes) (out : List Bytes) → Kept (e ∷ out) → Kept (back_up false (e ∷ out))
back_up-Kept e out k = elim (Bool-cases (bytes_eq e dot_dot)) [
  | inl up ↦ rw up (up-Kept e out (bytes_eq_sound e dot_dot up) k)
  | inr n ↦ rw n (pop-Kept e out (bytes_eq-ne e dot_dot n) k)
]

back_up_all-Kept : (out : List Bytes) → Kept out → Kept (back_up false out)
back_up_all-Kept [] k = inr ([], refl)
back_up_all-Kept (e ∷ out) k = back_up-Kept e out k

step-Kept :
    (e : Bytes) (out : List Bytes)
    → Lacks b'/' e
    → Kept out
    → Kept (
        if is_empty e || bytes_eq e (codes ".")
        then out
        else if bytes_eq e dot_dot
        then back_up false out
        else e ∷ out)
step-Kept [] out l k = k
step-Kept (c ∷ e) out l k = elim (Bool-cases (bytes_eq (c ∷ e) (codes "."))) [
  | inl dot ↦ rw dot k
  | inr word ↦ rw word (elim (Bool-cases (bytes_eq (c ∷ e) dot_dot)) [
    | inl up ↦ rw up (back_up_all-Kept out k)
    | inr down ↦ rw down (
        push-Kept (c ∷ e) out
          (record {
            not_empty = cons-ne-nil c e;
            not_dot = bytes_eq-ne (c ∷ e) (codes ".") word;
            not_up = bytes_eq-ne (c ∷ e) dot_dot down;
            no_slash = l;
          })
          k)
  ])
]

clean_from-Kept :
    (es out : List Bytes) → All (Lacks b'/') es → Kept out → Kept (clean_from false es out)
unfolding clean_from
clean_from-Kept [] out h k = k
clean_from-Kept (e ∷ es) out h k = clean_from-Kept es _ h.1 (step-Kept e out h.0 k)

reverse_aux-All :
    (xs ys : List Bytes) → All IsName xs → All IsName ys → All IsName (reverse_aux xs ys)
reverse_aux-All [] ys h k = k
reverse_aux-All (x ∷ xs) ys h k = reverse_aux-All xs (x ∷ ys) h.1 (h.0, k)

-- The path leads out of the directory that it starts from.
abbrev pub leads_up : Bytes → Bool
leads_up s = bytes_eq s dot_dot || has_prefix s (codes "../")

joined-up : (es : List Bytes) → leads_up (or_dot (join (dot_dot ∷ es) (codes "/"))) ≡ true
unfolding join bytes_eq has_prefix
joined-up [] = refl
joined-up (e ∷ es) = refl

climbing :
    (s : Bytes) (front : List Bytes)
    → is_abs s ≡ false
    → clean_from false (elements s) [] ≡ front ++ dot_dot ∷ []
    → leads_up (path_clean s) ≡ true
unfolding path_clean
climbing s front rel up =
    rw (rel, up, reverse-append front (dot_dot ∷ [])) (joined-up (reverse front))

-- A relative path that has been cleaned and does not lead up is made of names, or is the dot.
pub path_clean-names :
    (s : Bytes)
    → is_abs s ≡ false
    → leads_up (path_clean s) ≡ false
    → (es : List Bytes) × All IsName es × (path_clean s ≡ or_dot (join es (codes "/")))
unfolding path_clean
path_clean-names s rel down = elim (clean_from-Kept (elements s) [] (elements-Lacks s) (inl tt)) [
  | inl names ↦ (
    reverse (clean_from false (elements s) []),
    reverse_aux-All (clean_from false (elements s) []) [] names tt,
    rw (rel) refl,
  )
  | inr (front, up) ↦ cc (climbing s front rel up)
]
