-- ===== src/Text/Path.antt =====
-- The functions of Go's `path` that the program calls.
pub mod Clean
use mathlib.Core.List.{reverse}
use bankstmt_analyzer.Prelude.{[], ◌∷◌, ◌==◌, if◌then◌else◌}
use bankstmt_analyzer.Text.{Bytes, codes, is_empty}

-- Drops the slashes that a text begins with.
drop_slashes : Bytes → Bytes
drop_slashes [] = []
drop_slashes (c ∷ s) = if c == b'/' then drop_slashes s else c ∷ s

-- What stands before the first slash.
before_slash : Bytes → Bytes
before_slash [] = []
before_slash (c ∷ s) = if c == b'/' then [] else c ∷ before_slash s

-- `path.Base`
unfoldable pub base : Bytes → Bytes
unfolding drop_slashes before_slash
base [] = codes "."
base (c ∷ s) =
    let last = reverse (before_slash (drop_slashes (reverse (c ∷ s)))) in
    if is_empty last then codes "/" else last
