-- ===== src/Storage/Local.antt =====
-- internal/storage/local.go: the store in a directory of the file system. A file is known by its absolute path;
-- directories are not kept, and a text that cannot be read to its end brings its error with it.
pub mod Laws
pub mod RoundTrip
use bankstmt_analyzer.Prelude.{
  ℕ, Bool, true, false, not, ◌&&◌, Option, none, some, ◌∷◌, ◌++◌, [], length, if◌then◌else◌,
}
use bankstmt_analyzer.Text.{Bytes, codes, bytes_eq, has_prefix, is_empty, quote}
use bankstmt_analyzer.Text.Path.Clean.{path_clean}
use bankstmt_analyzer.Text.Space.{trim_space}
use bankstmt_analyzer.Go.{Error, plain, wrap, not_found, Result, ok, err}
use bankstmt_analyzer.Go.Monad.{Exec, context, lift, raise, pure, gets, modify, ◌>>=◌, ◌>>◌}
use bankstmt_analyzer.World.{find_blob}
use bankstmt_analyzer.Storage.{validate_key, escapes}
use bankstmt_analyzer.Storage.Objects.{Objects, system, set_object, drop_object}

-- `"storage: <what> %q"`
abbrev pub storing : Bytes → Bytes → Bytes
storing what key = codes "storage: " ++ (what ++ (codes " " ++ quote key))

-- `NewLocal`, where `abs` is the answer of `filepath.Abs` and `made` that of `os.MkdirAll`. The value is the
-- root.
unfoldable pub new_local : Bytes → Result Bytes → Result (Unit {0}) → Result Bytes
unfolding trim_space
new_local root abs made =
    if is_empty (trim_space root)
    then err (plain (codes "storage: local root must not be empty"))
    else elim abs [
      | err e ↦ err (wrap (storing (codes "resolve root") root) e)
      | ok path ↦ elim made [
        | err e ↦ err (wrap (storing (codes "create root") path) e)
        | ok _ ↦ ok path
      ]
    ]

module _ (root : Bytes) where
  -- The test at the end of `resolve`.
  abbrev within : Bytes → Bytes → Result Bytes
  within key path =
      if not (bytes_eq path root) && not (has_prefix path (root ++ codes "/"))
      then err (escapes key)
      else ok path

  -- `resolve`, with `filepath.Join`
  unfoldable pub resolve : Bytes → Result Bytes
  unfolding validate_key path_clean
  resolve key = elim (validate_key key) [
    | err e ↦ err e
    | ok clean ↦ within key (path_clean (root ++ (codes "/" ++ clean)))
  ]

  -- `ctx.Err()`: `some` is the error of a context that is done.
  abbrev unless_done : Option Bytes → Bytes → Bytes → Exec Objects (Unit {0})
  unless_done none what key = pure tt
  unless_done (some text) what key = raise (wrap (storing what key) (plain text))

  -- The error that the reader ends with.
  abbrev read_out : Option Bytes → Exec Objects (Unit {0})
  read_out none = pure tt
  read_out (some text) = raise (plain text)

  -- `io.Copy`: what has been read is written, also if the reader breaks.
  abbrev copy : Bytes → Bytes → Option Bytes → Exec Objects (Unit {0})
  copy tmp body broken = do system; modify (set_object tmp body); read_out broken

  -- What was in the temporary file is at the path, and the temporary file is gone.
  abbrev move : Bytes → Bytes → Option Bytes → Exec Objects (Unit {0})
  move tmp path none = raise (plain (codes "no such file or directory"))
  move tmp path (some content) = modify (λ s. set_object path content (drop_object tmp s))

  -- `os.Rename`
  abbrev rename : Bytes → Bytes → Exec Objects (Unit {0})
  rename tmp path = do system; move tmp path (← gets (λ s. find_blob tmp s.objects))

  -- What follows `os.CreateTemp`.
  unfoldable pub write_file : Bytes → Bytes → Bytes → Bytes → Option Bytes → Exec Objects ℕ
  unfolding system
  write_file key tmp path body broken = do
    context (storing (codes "write") key) (copy tmp body broken)
    context (storing (codes "sync") key) system
    context (storing (codes "close") key) system
    context (storing (codes "commit") key) (rename tmp path)
    pure (length body)

  -- The temporary file is gone, if it could be removed.
  abbrev tidied : Bytes → Result ℕ → Result (Unit {0}) → Objects → Result ℕ × Objects
  tidied tmp r (ok _) t = (r, drop_object tmp t)
  tidied tmp r (err _) t = (r, t)

  -- The deferred `os.Remove(tmpName)`, whose error is dropped.
  unfoldable pub clean_up : Bytes → Result ℕ × Objects → Result ℕ × Objects
  unfolding system
  clean_up tmp (r, s) = let (gone, t) = system s in tidied tmp r gone t

  abbrev filled : Bytes → Bytes → Bytes → Bytes → Option Bytes → Exec Objects ℕ
  filled tmp key path body broken = λ s. clean_up tmp (write_file key tmp path body broken s)

  abbrev create_temp : Bytes → Exec Objects (Unit {0})
  create_temp tmp = do system; modify (set_object tmp [])

  -- `Put`, where `tmp` is the path that `os.CreateTemp` makes.
  unfoldable pub put : Option Bytes → Bytes → Bytes → Bytes → Option Bytes → Exec Objects ℕ
  unfolding resolve write_file clean_up system
  put done tmp key body broken = do
    path ← lift (resolve key)
    unless_done done (codes "put") key
    context (storing (codes "create directory for") key) system
    context (storing (codes "create temp file for") key) (create_temp tmp)
    filled tmp key path body broken

  abbrev opened : Bytes → Option Bytes → Exec Objects Bytes
  opened key none = raise (wrap (storing (codes "get") key) not_found)
  opened key (some body) = pure body

  -- `Get`, with the content that the reader gives
  unfoldable pub get : Option Bytes → Bytes → Exec Objects Bytes
  unfolding resolve system find_blob
  get done key = do
    path ← lift (resolve key)
    unless_done done (codes "get") key
    context (storing (codes "open") key) system
    opened key (← gets (λ s. find_blob path s.objects))

  abbrev removed : Bytes → Bytes → Option Bytes → Exec Objects (Unit {0})
  removed key path none = raise (wrap (storing (codes "delete") key) not_found)
  removed key path (some body) = modify (drop_object path)

  -- `Delete`
  unfoldable pub delete : Option Bytes → Bytes → Exec Objects (Unit {0})
  unfolding resolve system find_blob
  delete done key = do
    path ← lift (resolve key)
    unless_done done (codes "delete") key
    context (storing (codes "delete") key) system
    removed key path (← gets (λ s. find_blob path s.objects))
