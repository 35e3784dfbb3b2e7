-- ===== src/Llm/Reply.antt =====
-- internal/llm/response.go and client.go: reading the reply, and the message that asks for it.
pub mod Layout
pub mod Complete
use bankstmt_analyzer.Prelude.{
  ℕ, ◌+◌, ◌/◌, ◌%◌, zero, suc, Bool, true, false, not, ◌&&◌, ◌||◌, ◌≡◌, append_assoc, arith, List,
  [], ◌∷◌, ◌++◌, ◌==◌, if◌then◌else◌,
}
use bankstmt_analyzer.Text.{Bytes, codes, is_empty, bytes_eq, join}
use bankstmt_analyzer.Text.Decimal.{print_decimal}
use bankstmt_analyzer.Text.Space.{trim_space}
use bankstmt_analyzer.Go.{Error, error_text, plain, marked, Result, ok, err}
use bankstmt_analyzer.Llm.{Statement, Response}

-- The first text of the two that is not blank, trimmed.
abbrev first_of_two : Bytes → Bytes → Bytes
first_of_two a b = let t = trim_space a in if is_empty t then trim_space b else t

-- `Response.Currency`
unfoldable pub currency : Response → Bytes
unfolding trim_space
currency r = first_of_two r.meta.currency r.analysis.currency

-- `Response.PeriodStart`
unfoldable pub period_start : Response → Bytes
unfolding trim_space
period_start r = first_of_two r.meta.period_covered.start r.analysis.period_start

-- `Response.PeriodEnd`
unfoldable pub period_end : Response → Bytes
unfolding trim_space
period_end r = first_of_two r.meta.period_covered.end r.analysis.period_end

-- `InvalidResponseError`, which no other attempt can clear.
abbrev pub invalid_response : Bytes → Error
invalid_response reason = marked false (codes "llm: invalid response: " ++ reason)

abbrev pub required_keys : List Bytes
required_keys = codes "analysis" ∷ codes "chart_data" ∷ codes "transactions" ∷ []

pub has_key : List Bytes → Bytes → Bool
has_key [] key = false
has_key (k ∷ ks) key = bytes_eq k key || has_key ks key

-- The loop over `requiredKeys`, which stand in the order that `sort.Strings` gives.
unfoldable pub missing_keys : List Bytes → List Bytes → List Bytes
unfolding has_key bytes_eq
missing_keys envelope [] = []
missing_keys envelope (key ∷ keys) =
    if has_key envelope key then missing_keys envelope keys else key ∷ missing_keys envelope keys

-- `encoding/json` as the program uses it: the members of an object, and the reply's typed form.
module _ (members : Bytes → Result (List Bytes)) (decode : Bytes → Result Response) where
  with_raw : Bytes → Result Response → Result Response
  unfolding currency error_text
  with_raw raw (err e) =
      err (invalid_response (codes "the reply could not be decoded: " ++ error_text e))
  with_raw raw (ok resp) =
      if is_empty (currency resp)
      then err (
          invalid_response (codes "no currency was reported in meta.currency or analysis.currency"))
      else ok (record resp { raw = raw })

  with_missing : Bytes → List Bytes → Result Response
  unfolding with_raw
  with_missing raw [] = with_raw raw (decode raw)
  with_missing raw (key ∷ keys) = err (
      invalid_response (
        codes "the reply is missing the required top-level keys ["
        ++ (join (key ∷ keys) (codes " ") ++ codes "]")))

  with_members : Bytes → Result (List Bytes) → Result Response
  unfolding with_missing missing_keys error_text
  with_members raw (err e) =
      err (invalid_response (codes "the reply is not a JSON object: " ++ error_text e))
  with_members raw (ok envelope) = with_missing raw (missing_keys envelope required_keys)

  -- `parseResponse`
  unfoldable pub parse_response : Bytes → Result Response
  unfolding with_members
  parse_response raw = with_members raw (members raw)

-- The block that `Fprintf` writes for the statement with index `i`.
pub block : ℕ → Statement → Bytes
unfolding print_decimal
block i s = codes "--- STATEMENT " ++ (print_decimal (i + 1) ++ (codes " ---\n" ++ s.markdown))

-- What stands before the block with index `i`.
gap : ℕ → Bytes
gap i = if i == 0 then [] else codes "\n\n"

-- The loop of `BuildUserMessage` from index `i` on, behind what is written.
write_blocks : ℕ → List Statement → Bytes → Bytes
unfolding gap
write_blocks i [] out = out
write_blocks i (s ∷ ss) out = write_blocks (i + 1) ss (out ++ (gap i ++ block i s))

unfoldable pub build_user_message : List Statement → Bytes
unfolding write_blocks block
build_user_message statements = write_blocks 0 statements []
