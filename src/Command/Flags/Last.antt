-- ===== src/Command/Flags/Last.antt =====
-- Command lines of flags that are set, some of them more than once (`parseFlags`, cmd/api/main.go).
use bankstmt_analyzer.Prelude.{
  ◌≡◌, refl, ◌∙◌, Bool, true, false, ◌&&◌, ◌||◌, not, Option, none, some, List, [], ◌∷◌, ◌++◌, map,
  arith, if◌then◌else◌,
}
use bankstmt_analyzer.Text.{Bytes, codes}
use bankstmt_analyzer.Go.{ok}
use bankstmt_analyzer.Command.Flags.{
  Flag, api, worker, migrate, version, Values, unset, flag_name, set_flag, parse, parse_flags,
}

-- A flag that is set on the command line, and how: with one dash or two, with `=true`, `=false` or bare.
pub record Setting : Type 0 where
  pub flag : Flag
  pub value : Bool
  pub two_dashes : Bool
  pub bare : Bool

abbrev pub print : Setting → Bytes
print s =
    (if s.two_dashes then codes "--" else codes "-")
    ++ (flag_name s.flag
        ++ (if s.value then (if s.bare then [] else codes "=true") else codes "=false"))

abbrev pub same_flag : Flag → Flag → Bool
same_flag api api = true
same_flag worker worker = true
same_flag migrate migrate = true
same_flag version version = true
same_flag _ _ = false

-- The value that the flag is set to last.
abbrev pub last : Flag → List Setting → Option Bool
last f [] = none
last f (s ∷ ss) = elim (last f ss) [
  | some b ↦ some b
  | none ↦ if same_flag f s.flag then some s.value else none
]

abbrev pub value_or : Bool → Option Bool → Bool
value_or b none = b
value_or b (some c) = c

abbrev pub is_none : Option Bool → Bool
is_none none = true
is_none (some b) = false

-- A role is taken if its flag is last set to true, and also if neither role's flag is set.
abbrev pub takes_role : Flag → List Setting → Bool
takes_role f ss =
    if is_none (last api ss) && is_none (last worker ss) then true else value_or false (last f ss)

apply : List Setting → Values → Values
apply [] v = v
apply (s ∷ ss) v = apply ss (set_flag s.flag s.value v)

-- All ways to write a flag.
set_argument-print :
    (f : Flag) (b two bare : Bool) (v : Values) (args : List Bytes)
    → parse (print (record { flag = f; value = b; two_dashes = two; bare = bare }) ∷ args) v
      ≡ parse args (set_flag f b v)
unfolding parse
set_argument-print api b two bare v args = ground arith
set_argument-print worker b two bare v args = ground arith
set_argument-print migrate b two bare v args = ground arith
set_argument-print version b two bare v args = ground arith

parse-print : (ss : List Setting) (v : Values) → parse (map print ss) v ≡ ok (apply ss v)
unfolding apply parse
parse-print [] v = refl
parse-print (s ∷ ss) v =
    set_argument-print s.flag s.value s.two_dashes s.bare v (map print ss)
    ∙ parse-print ss (set_flag s.flag s.value v)

-- The values behind the settings.
abbrev settled : List Setting → Values → Values
settled ss v = record {
  api = value_or v.api (last api ss);
  worker = value_or v.worker (last worker ss);
  migrate = value_or v.migrate (last migrate ss);
  version = value_or v.version (last version ss);
  set_api = v.set_api || not (is_none (last api ss));
  set_worker = v.set_worker || not (is_none (last worker ss));
}

settled-cons :
    (f : Flag) (b two bare : Bool) (ss : List Setting) (v : Values)
    → settled ss (set_flag f b v)
      ≡ settled (record { flag = f; value = b; two_dashes = two; bare = bare } ∷ ss) v
unfolding set_flag
settled-cons api b two bare ss v = ground arith
settled-cons worker b two bare ss v = ground arith
settled-cons migrate b two bare ss v = ground arith
settled-cons version b two bare ss v = ground arith

apply-eq : (ss : List Setting) (v : Values) → apply ss v ≡ settled ss v
unfolding apply
apply-eq [] v = ground arith
apply-eq (s ∷ ss) v =
    apply-eq ss (set_flag s.flag s.value v) ∙ settled-cons s.flag s.value s.two_dashes s.bare ss v

-- A command line that sets the four flags, in any order, any number of times and in any of the ways to write them,
-- is accepted. The process then takes a role if its flag is last set to true or no role's flag is set at all, and
-- it migrates, or prints the version, if that flag is last set to true.
pub parse_flags-last :
    (ss : List Setting)
    → parse_flags (map print ss)
      ≡ ok (record {
        run_api = takes_role api ss;
        run_worker = takes_role worker ss;
        migrate = value_or false (last migrate ss);
        show_version = value_or false (last version ss);
      })
unfolding parse_flags
parse_flags-last ss = ground (arith, parse-print ss unset, apply-eq ss unset)
