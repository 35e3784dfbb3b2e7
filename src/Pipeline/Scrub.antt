-- ===== src/Pipeline/Scrub.antt =====
-- internal/pipeline/scrub.go: the messages of upstream errors, made safe to log and to serve.
pub mod Truncate
pub mod Hides
pub mod Lines
use bankstmt_analyzer.Prelude.{
  ℕ, zero, suc, ◌-◌, Bool, true, false, not, ◌&&◌, Option, none, some, List, [], ◌∷◌, ◌++◌, ltb,
  leb, length, take, drop, if◌then◌else◌,
}
use bankstmt_analyzer.Text.{Bytes, codes, join, replace_all}
use bankstmt_analyzer.Text.Space.{trim_space, fields}

abbrev pub max_error_message_bytes : ℕ
max_error_message_bytes = 400

abbrev pub max_failure_reason_bytes : ℕ
max_failure_reason_bytes = 500

abbrev pub redacted : Bytes
redacted = codes "[redacted]"

abbrev pub ellipsis : Bytes
ellipsis = codes "..."

pub record Scrubber : Type 0 where
  pub secrets : List Bytes

-- The insertion step of `sort.Slice`, which sorts up to 12 elements by insertion; the configuration
-- names at most 5 secrets.
insert_longest : Bytes → List Bytes → List Bytes
insert_longest s [] = s ∷ []
insert_longest s (t ∷ ts) =
    if ltb (length s) (length t) then t ∷ insert_longest s ts else s ∷ t ∷ ts

sort_longest : List Bytes → List Bytes
unfolding insert_longest
sort_longest [] = []
sort_longest (s ∷ ss) = insert_longest s (sort_longest ss)

-- The loop of `newScrubber`: very short values are no secrets.
pub keep_secrets : List Bytes → List Bytes
unfolding trim_space
keep_secrets [] = []
keep_secrets (s ∷ ss) =
    if leb 8 (length (trim_space s)) then s ∷ keep_secrets ss else keep_secrets ss

unfoldable pub new_scrubber : List Bytes → Scrubber
unfolding keep_secrets sort_longest
new_scrubber secrets = record { secrets = sort_longest (keep_secrets secrets) }

-- `utf8.RuneStart`
unfoldable pub rune_start : ℕ → Bool
rune_start c = not (leb 0x80 c && leb c 0xbf)

-- `utf8.RuneStart(s[i])`
pub rune_start_at : Bytes → ℕ → Bool
unfolding rune_start
rune_start_at s i = elim (drop i s) [ [] ↦ true | c ∷ _ ↦ rune_start c ]

-- The loop of `truncate`: `cut` moves back to a byte that starts a rune.
pub cut_back : Bytes → ℕ → ℕ
unfolding rune_start_at
cut_back s zero = 0
cut_back s (suc cut) = elim (rune_start_at s (suc cut)) [ true ↦ suc cut | false ↦ cut_back s cut ]

-- The limit is at least 3, the ellipsis's length: callers give 400 and 500. Below it the source would slice with
-- a negative bound and panic.
unfoldable pub truncate : Bytes → ℕ → Bytes
unfolding cut_back
truncate s limit = if leb (length s) limit then s else take (cut_back s (limit - 3)) s ++ ellipsis

-- The loop of `clean`.
unfoldable pub redact : List Bytes → Bytes → Bytes
unfolding replace_all
redact [] msg = msg
redact (secret ∷ secrets) msg = redact secrets (replace_all msg secret redacted)

unfoldable pub clean : Scrubber → Bytes → Bytes
unfolding redact fields join truncate
clean s msg = truncate (join (fields (redact s.secrets msg)) (codes " ")) max_error_message_bytes

-- `message`: `none` stands for a nil error, `some` for what `Error()` returns.
unfoldable pub message : Scrubber → Option Bytes → Bytes
unfolding clean
message s none = codes "the step failed without reporting a reason"
message s (some msg) = clean s msg
