-- ===== src/Llm/Reply/Complete.antt =====
-- Which texts `parseResponse` (internal/llm/response.go) takes for a reply.
use bankstmt_analyzer.Prelude.{
  ◌≡◌, refl, sym, true, false, Bool-cases, inl, inr, List, [], ◌∷◌, arith, All,
}
use bankstmt_analyzer.Text.{Bytes, is_empty}
use bankstmt_analyzer.Go.{Result, ok, err}
use bankstmt_analyzer.Go.Results.{ok-injective}
use bankstmt_analyzer.Llm.{Response}
use bankstmt_analyzer.Llm.Reply.{
  required_keys, has_key, missing_keys, with_raw, with_missing, with_members, parse_response,
  currency,
}

-- The text is an object with all the members that the program needs; the reply is what it decodes to, with a
-- currency, and keeps the text.
pub record Parsed (members : Bytes → Result (List Bytes)) (decode : Bytes → Result Response)
    (raw : Bytes) (reply : Response) : Type 0 where
  pub keys : List Bytes
  pub decoded : Response
  pub object : members raw ≡ ok keys
  pub complete : All (λ key. has_key keys key ≡ true) required_keys
  pub read : decode raw ≡ ok decoded
  pub kept : reply ≡ record decoded { raw = raw }
  pub with_currency : is_empty (currency decoded) ≡ false

missing_keys-none :
    (envelope keys : List Bytes)
    → missing_keys envelope keys ≡ []
    → All (λ key. has_key envelope key ≡ true) keys
unfolding missing_keys
missing_keys-none envelope [] h = tt
missing_keys-none envelope (key ∷ keys) h = elim (Bool-cases (has_key envelope key)) [
  | inl there ↦ (there, missing_keys-none envelope keys (rw there at h))
  | inr missing ↦ absurd (ground arith)
]

module _ (members : Bytes → Result (List Bytes)) (decode : Bytes → Result Response) where
  with_raw-ok :
      (raw : Bytes) (r : Result Response) {reply : Response}
      → with_raw members decode raw r ≡ ok reply
      → (decoded : Response) × (r ≡ ok decoded)
        × (is_empty (currency decoded) ≡ false)
        × (reply ≡ record decoded { raw = raw })
  unfolding with_raw
  with_raw-ok raw (err e) h = absurd (ground arith)
  with_raw-ok raw (ok decoded) h = elim (Bool-cases (is_empty (currency decoded))) [
    | inl empty ↦ absurd (ground arith)
    | inr given ↦ (decoded, refl, given, sym (ok-injective (rw given at h)))
  ]

  with_missing-ok :
      (raw : Bytes) (missing : List Bytes) {reply : Response}
      → with_missing members decode raw missing ≡ ok reply
      → (missing ≡ []) × (with_raw members decode raw (decode raw) ≡ ok reply)
  unfolding with_missing
  with_missing-ok raw [] h = (refl, h)
  with_missing-ok raw (key ∷ keys) h = absurd (ground arith)

  with_members-Parsed :
      (raw : Bytes) (r : Result (List Bytes)) {reply : Response}
      → members raw ≡ r
      → with_members members decode raw r ≡ ok reply
      → Parsed members decode raw reply
  unfolding with_members
  with_members-Parsed raw (err e) object h = absurd (ground arith)
  with_members-Parsed raw (ok keys) object h =
      let (none_missing, ended) = with_missing-ok raw (missing_keys keys required_keys) h in
      let (decoded, read, given, kept) = with_raw-ok raw (decode raw) ended in
      record {
        keys = keys;
        decoded = decoded;
        object = object;
        complete = missing_keys-none keys required_keys none_missing;
        read = read;
        kept = kept;
        with_currency = given;
      }

  pub parse_response-Parsed :
      (raw : Bytes) {reply : Response}
      → parse_response members decode raw ≡ ok reply
      → Parsed members decode raw reply
  unfolding parse_response
  parse_response-Parsed raw h = with_members-Parsed raw (members raw) refl h
