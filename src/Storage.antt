-- ===== src/Storage.antt =====
-- internal/storage/storage.go: the keys of stored files, and what a store of them promises. The stores keep
-- their objects as pairs of a name and a content; each call of the file system or of the service may fail.
pub mod Keys
pub mod Objects
pub mod Local
pub mod S3
use bankstmt_analyzer.Prelude.{
  ℕ, ◌≡◌, Bool, true, false, ◌&&◌, ◌||◌, [], ◌∷◌, ◌++◌, ◌==◌, leb, if◌then◌else◌,
}
use bankstmt_analyzer.Text.{Bytes, codes, has_prefix, is_empty, quote, replace_all, bytes_eq}
use bankstmt_analyzer.Text.Path.Clean.{path_clean, is_abs, leads_up}
use bankstmt_analyzer.Text.Space.{trim_space}
use bankstmt_analyzer.Go.{Error, plain, Result, ok, err}

-- `hasDriveLetter`
unfoldable pub has_drive_letter : Bytes → Bool
has_drive_letter (c ∷ d ∷ s) = d == b':' && (leb b'a' c && leb c b'z' || leb b'A' c && leb c b'Z')
has_drive_letter _ = false

abbrev escapes : Bytes → Error
escapes key = plain (codes "storage: key " ++ (quote key ++ codes " escapes the store root"))

-- `validateKey`
unfoldable pub validate_key : Bytes → Result Bytes
unfolding trim_space has_prefix has_drive_letter path_clean replace_all
validate_key key =
    let clean = path_clean (replace_all key (codes "\\") (codes "/")) in
    if is_empty (trim_space key)
    then err (plain (codes "storage: key must not be empty"))
    else if has_prefix key (codes "/") || has_prefix key (codes "\\") || has_drive_letter key
    then err (escapes key)
    else if is_abs clean || leads_up clean
    then err (escapes key)
    else ok clean
