-- ===== src/Command/Flags.antt =====
-- `parseFlags` (cmd/api/main.go), and what it uses of package flag: the parsing of flags that are all Boolean.
pub mod Last
use bankstmt_analyzer.Prelude.{
  Bool, true, false, not, ◌||◌, ◌&&◌, Option, none, some, List, [], ◌∷◌, ◌++◌, ◌==◌, if◌then◌else◌,
}
use bankstmt_analyzer.Text.{Bytes, codes, bytes_eq, is_empty, quote}
use bankstmt_analyzer.Go.{Error, plain, wrap, Result, ok, err}

pub data Flag : Type 0 where
  api worker migrate version : Flag

-- The values of the flags, and which of the first two have been set.
pub record Values : Type 0 where
  pub api : Bool
  pub worker : Bool
  pub migrate : Bool
  pub version : Bool
  pub set_api : Bool
  pub set_worker : Bool

pub record Options : Type 0 where
  pub run_api : Bool
  pub run_worker : Bool
  pub migrate : Bool
  pub show_version : Bool

-- `fs.Bool`: the flags and their values before the arguments are read.
abbrev pub unset : Values
unset = record {
  api = false;
  worker = false;
  migrate = false;
  version = false;
  set_api = false;
  set_worker = false;
}

-- The flags by their names.
abbrev pub flag_name : Flag → Bytes
flag_name api = codes "api"
flag_name worker = codes "worker"
flag_name migrate = codes "migrate"
flag_name version = codes "version"

find_flag : Bytes → Option Flag
unfolding bytes_eq
find_flag s =
    if bytes_eq s (flag_name Flag.api)
    then some Flag.api
    else if bytes_eq s (flag_name Flag.worker)
    then some Flag.worker
    else if bytes_eq s (flag_name Flag.migrate)
    then some Flag.migrate
    else if bytes_eq s (flag_name Flag.version)
    then some Flag.version
    else none

-- A flag's `Set`
unfoldable pub set_flag : Flag → Bool → Values → Values
set_flag api b v = record v { api = b; set_api = true }
set_flag worker b v = record v { worker = b; set_worker = true }
set_flag migrate b v = record v { migrate = b }
set_flag version b v = record v { version = b }

one_of : Bytes → List Bytes → Bool
unfolding bytes_eq
one_of s [] = false
one_of s (t ∷ ts) = if bytes_eq s t then true else one_of s ts

-- `strconv.ParseBool`
unfoldable pub parse_bool : Bytes → Option Bool
unfolding one_of
parse_bool s =
    if one_of s
      (codes "1" ∷ codes "t" ∷ codes "T" ∷ codes "true" ∷ codes "TRUE" ∷ codes "True" ∷ [])
    then some true
    else if one_of s
        (codes "0" ∷ codes "f" ∷ codes "F" ∷ codes "false" ∷ codes "FALSE" ∷ codes "False" ∷ [])
    then some false
    else none

-- A flag's name and the value behind the first `=` that is not its first byte.
split_value : Bytes → Bytes × Option Bytes
split_value [] = ([], none)
split_value (c ∷ s) =
    let (name, value) = split_value s in if c == b'=' then ([], some s) else (c ∷ name, value)

abbrev with_head : Bytes → Bytes × Option Bytes
unfolding split_value
with_head [] = ([], none)
with_head (c ∷ s) = let (name, value) = split_value s in (c ∷ name, value)

-- An argument without its dashes.
abbrev bad_syntax : Bytes → Bool
bad_syntax [] = true
bad_syntax (c ∷ s) = c == b'-' || c == b'='

set_value : Flag → Option Bytes → Values → Result Values
unfolding set_flag parse_bool
set_value f none v = ok (set_flag f true v)
set_value f (some s) v = elim (parse_bool s) [
  | some b ↦ ok (set_flag f b v)
  | none ↦ err (
      plain (
        codes "invalid boolean value "
        ++ (quote s ++ (codes " for -" ++ (flag_name f ++ codes ": parse error")))))
]

named : Option Flag → Bytes → Option Bytes → Values → Result Values
unfolding set_value bytes_eq
named (some f) name value v = set_value f value v
named none name value v =
    if (if bytes_eq name (codes "help") then true else bytes_eq name (codes "h"))
    then err (plain (codes "flag: help requested"))
    else err (plain (codes "flag provided but not defined: -" ++ name))

-- One argument `-name` or `--name`, with or without a value.
unfoldable pub set_argument : Bytes → Bytes → Values → Result Values
unfolding find_flag named with_head split_value
set_argument arg body v =
    if bad_syntax body
    then err (plain (codes "bad flag syntax: " ++ arg))
    else let (name, value) = with_head body in named (find_flag name) name value v

-- What an argument is: the end of the flags, or a flag without its dashes.
unfoldable pub flag_body : Bytes → Option Bytes
flag_body [] = none
flag_body (c ∷ []) = none
flag_body (c ∷ d ∷ s) =
    if c == b'-'
    then (if d == b'-' then (if is_empty s then none else some s) else some (d ∷ s))
    else none

-- `FlagSet.Parse`: the flags up to the first argument that is none, or `--`.
unfoldable pub parse : List Bytes → Values → Result Values
unfolding flag_body set_argument
parse [] v = ok v
parse (arg ∷ args) v = elim (flag_body arg) [
  | none ↦ ok v
  | some body ↦ elim (set_argument arg body v) [ err e ↦ err e | ok w ↦ parse args w ]
]

-- The end of `parseFlags`
unfoldable pub options_of : Values → Options
options_of v =
    let neither = not v.set_api && not v.set_worker in
    record {
      run_api = if neither then true else v.api;
      run_worker = if neither then true else v.worker;
      migrate = v.migrate;
      show_version = v.version;
    }

-- `parseFlags`
unfoldable pub parse_flags : List Bytes → Result Options
unfolding parse options_of
parse_flags args = elim (parse args unset) [
  | err e ↦ err (wrap (codes "parse flags") e)
  | ok v ↦ ok (options_of v)
]
