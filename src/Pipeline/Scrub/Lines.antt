-- ===== src/Pipeline/Scrub/Lines.antt =====
-- The shape of a cleaned message (internal/pipeline/scrub.go): one line of bounded length.
use bankstmt_analyzer.Prelude.{
  ℕ, ◌-◌, ◌≤◌, ◌≢◌, inl, inr, List, [], ◌∷◌, arith, leb, length, take, Option, none, some, All,
  All-append, All-take, Bool-cases,
}
use bankstmt_analyzer.Text.{Bytes, codes, join}
use bankstmt_analyzer.Text.Space.{fields}
use bankstmt_analyzer.Text.Space.Words.{IsInk, fields-IsInk}
use bankstmt_analyzer.Pipeline.Scrub.{Scrubber, cut_back, truncate, redact, message, ellipsis}
use bankstmt_analyzer.Pipeline.Scrub.Truncate.{length-truncate}

-- The byte is no line feed and no carriage return.
abbrev pub InLine : ℕ → Type 0
InLine c = (c ≢ 0x0a) × (c ≢ 0x0d)

IsInk-InLine : (cs : Bytes) → All IsInk cs → All InLine cs
IsInk-InLine [] h = tt
IsInk-InLine (c ∷ cs) h = ((ground arith, ground arith), IsInk-InLine cs h.1)

join-InLine : (ws : List Bytes) → All (All IsInk) ws → All InLine (join ws (codes " "))
unfolding join
join-InLine [] h = tt
join-InLine (w ∷ []) h = IsInk-InLine w h.0
join-InLine (w ∷ v ∷ ws) h =
    All-append InLine w _ (IsInk-InLine w h.0) (omega arith, join-InLine (v ∷ ws) h.1)

truncate-InLine : (s : Bytes) (limit : ℕ) → All InLine s → All InLine (truncate s limit)
unfolding truncate
truncate-InLine s limit h = elim (Bool-cases (leb (length s) limit)) [
  | inl short ↦ rw short h
  | inr long ↦ rw long (
      All-append InLine (take (cut_back s (limit - 3)) s) ellipsis
        (All-take InLine (cut_back s (limit - 3)) s h) (omega arith))
]

-- Any error renders as one line of at most 400 bytes, whatever the upstream service answered.
pub message_bounds :
    (s : Scrubber) (e : Option Bytes) → (length (message s e) ≤ 400) × All InLine (message s e)
unfolding message
message_bounds s none = (omega arith, omega arith)
message_bounds s (some msg) = (
  length-truncate (join (fields (redact s.secrets msg)) (codes " ")) 400 (omega arith),
  truncate-InLine _ 400 (join-InLine _ (fields-IsInk (redact s.secrets msg))),
)
