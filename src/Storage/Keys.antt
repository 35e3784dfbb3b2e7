-- ===== src/Storage/Keys.antt =====
-- The keys that `validateKey` (internal/storage/storage.go) accepts.
use bankstmt_analyzer.Prelude.{
  ◌≡◌, refl, subst, Bool, true, false, ◌||◌, List, [], ◌∷◌, arith, All, if◌then◌else◌,
}
use bankstmt_analyzer.Text.{Bytes, codes, has_prefix, is_empty, join, replace_all, replace_from}
use bankstmt_analyzer.Text.Path.Clean.{
  path_clean, is_abs, leads_up, IsName, or_dot, path_clean-names,
}
use bankstmt_analyzer.Text.Space.{trim_space}
use bankstmt_analyzer.Go.{Error, ok, err}
use bankstmt_analyzer.Go.Results.{ok-injective}
use bankstmt_analyzer.Storage.{validate_key, has_drive_letter}

-- What is known of a key when each test of `validateKey` has passed.
passed :
    (empty rooted out : Bool) (e f g : Error) (clean : Bytes) {c : Bytes}
    → (if empty then err e else if rooted then err f else if out then err g else ok clean) ≡ ok c
    → (rooted ≡ false) × (out ≡ false) × (clean ≡ c)
passed true rooted out e f g clean h = ground arith
passed false true out e f g clean h = ground arith
passed false false true e f g clean h = ground arith
passed false false false e f g clean h = (refl, refl, ok-injective h)

or-false : (a b : Bool) → (a || b) ≡ false → b ≡ false
or-false true b h = ground arith
or-false false b h = h

relative :
    (key : Bytes)
    → (has_prefix key (codes "/") || has_prefix key (codes "\\") || has_drive_letter key) ≡ false
    → is_abs (replace_all key (codes "\\") (codes "/")) ≡ false
unfolding has_prefix replace_all replace_from
relative [] h = refl
relative (c ∷ key) h = ground arith

-- A key that is accepted becomes a relative path of names: no part of it is empty, a dot, two dots or holds
-- a slash. (A key such as `a/..` becomes the dot.)
pub validate_key-names :
    (key : Bytes) {clean : Bytes}
    → validate_key key ≡ ok clean
    → (es : List Bytes) × All IsName es × (clean ≡ or_dot (join es (codes "/")))
unfolding validate_key
validate_key-names key h =
    let path = replace_all key (codes "\\") (codes "/") in
    let (rooted, out, same) =
      passed (is_empty (trim_space key)) _ (is_abs (path_clean path) || leads_up (path_clean path))
        _ _ _ (path_clean path) h in
    let (es, names, e) = path_clean-names path (relative key rooted) (or-false _ _ out) in
    (es, names, subst (λ c. c ≡ or_dot (join es (codes "/"))) same e)
