-- ===== src/Pipeline/Scrub/Hides.antt =====
-- What `clean` (internal/pipeline/scrub.go) hides: the secrets, and the ends of lines.
use bankstmt_analyzer.Prelude.{
  ℕ, le→leb, refl, ◌-◌, ◌≤◌, ◌≡◌, sym, ◌≢◌, ◌⊎◌, inl, inr, false, List, [], ◌∷◌, arith, leb, ltb,
  length, drop, take-append-drop, In, Bool-cases,
}
use bankstmt_analyzer.Text.{Bytes, codes, contains, replace_all}
use bankstmt_analyzer.Text.Space.{trim_space}
use bankstmt_analyzer.Text.Space.Words.{fields-contains}
use bankstmt_analyzer.Text.Search.{
  Lacks, ends_with, contains-replace_from, contains-append_left, contains-append_replicate,
  contains-join,
}
use bankstmt_analyzer.Pipeline.Scrub.{
  Scrubber, new_scrubber, keep_secrets, sort_longest, insert_longest, cut_back, truncate, redact,
  clean, redacted,
}

-- The secrets that cleaning is sure to hide: none of their bytes is a bracket or a space, they are
-- not part of the word that replaces them, and they do not end in a dot.
pub record IsHideable (k : Bytes) : Type 0 where
  pub no_left : Lacks b'[' k
  pub no_right : Lacks b']' k
  pub no_space : Lacks b' ' k
  pub not_redacted : contains (codes "redacted") k ≡ false
  pub no_dot : ends_with b'.' k ≡ false

module _ (k : Bytes) (hide : IsHideable k) (not_empty : k ≢ []) where
  open hide use {no_left, no_right, no_space, not_redacted, no_dot}

  contains-replace_all :
      (old s : Bytes)
      → (contains s k ≡ false) ⊎ (old ≡ k)
      → contains (replace_all s old redacted) k ≡ false
  unfolding replace_all
  contains-replace_all old s h =
      contains-replace_from b'[' b']' (codes "redacted") k no_left no_right not_redacted not_empty
        old 0 s h

  redact-keeps :
      (secrets : List Bytes) (msg : Bytes)
      → contains msg k ≡ false
      → contains (redact secrets msg) k ≡ false
  unfolding redact
  redact-keeps [] msg h = h
  redact-keeps (s ∷ ss) msg h = redact-keeps ss _ (contains-replace_all s msg (inl h))

  redact-hides :
      (secrets : List Bytes) (msg : Bytes) → In k secrets → contains (redact secrets msg) k ≡ false
  unfolding redact
  redact-hides [] msg i = absurd i
  redact-hides (s ∷ ss) msg (inl e) = redact-keeps ss _ (contains-replace_all s msg (inr (sym e)))
  redact-hides (s ∷ ss) msg (inr i) = redact-hides ss _ i

  contains-truncate :
      (s : Bytes) (limit : ℕ) → contains s k ≡ false → contains (truncate s limit) k ≡ false
  unfolding truncate
  contains-truncate s limit h = elim (Bool-cases (leb (length s) limit)) [
    | inl short ↦ rw (short) h
    | inr long ↦ rw long (
        contains-append_replicate b'.' 3 _ k not_empty no_dot
          (contains-append_left _ (drop (cut_back s (limit - 3)) s) k (rw take-append-drop h)))
  ]

  -- A text without `k` has no `k` when it is cleaned, and cleaning removes `k` if it is a secret.
  contains-clean : (s : Scrubber) (msg : Bytes) → In k s.secrets → contains (clean s msg) k ≡ false
  unfolding clean
  contains-clean s msg i = contains-truncate _ 400 (
      contains-join b' ' k _ no_space not_empty
        (fields-contains k _ (redact-hides s.secrets msg i)))

In-insert_longest : (k s : Bytes) (ss : List Bytes) → In k (s ∷ ss) → In k (insert_longest s ss)
unfolding insert_longest
In-insert_longest k s [] i = i
In-insert_longest k s (t ∷ ts) (inl e) = elim (Bool-cases (ltb (length s) (length t))) [
  | inl shorter ↦ rw shorter (inr (In-insert_longest k s ts (inl e)))
  | inr longer ↦ rw longer (inl e)
]
In-insert_longest k s (t ∷ ts) (inr (inl e)) = elim (Bool-cases (ltb (length s) (length t))) [
  | inl shorter ↦ rw shorter (inl e)
  | inr longer ↦ rw longer (inr (inl e))
]
In-insert_longest k s (t ∷ ts) (inr (inr i)) = elim (Bool-cases (ltb (length s) (length t))) [
  | inl shorter ↦ rw shorter (inr (In-insert_longest k s ts (inr i)))
  | inr longer ↦ rw longer (inr (inr i))
]

In-sort_longest : (k : Bytes) (ss : List Bytes) → In k ss → In k (sort_longest ss)
unfolding sort_longest
In-sort_longest k [] i = i
In-sort_longest k (s ∷ ss) (inl e) = In-insert_longest k s (sort_longest ss) (inl e)
In-sort_longest k (s ∷ ss) (inr i) =
    In-insert_longest k s (sort_longest ss) (inr (In-sort_longest k ss i))

In-keep_secrets :
    (k : Bytes) (ss : List Bytes) → 8 ≤ length (trim_space k) → In k ss → In k (keep_secrets ss)
unfolding keep_secrets
In-keep_secrets k [] long i = i
In-keep_secrets k (s ∷ ss) long (inl e) = rw (← e, le→leb 8 _ long) (inl refl)
In-keep_secrets k (s ∷ ss) long (inr i) = elim (Bool-cases (leb 8 (length (trim_space s)))) [
  | inl kept ↦ rw kept (inr (In-keep_secrets k ss long i))
  | inr dropped ↦ rw dropped (In-keep_secrets k ss long i)
]

ne-nil_of_long : (k : Bytes) → 8 ≤ length (trim_space k) → k ≢ []
unfolding trim_space
ne-nil_of_long [] long = absurd (omega arith)
ne-nil_of_long (c ∷ k) long = cc

-- However the secrets are listed, a message that a scrubber for them has cleaned holds no secret that
-- has 8 bytes or more between its outer white space, no bracket or space, is no part of the word
-- "redacted" and does not end in a dot.
pub clean-hides_secrets :
    (secrets : List Bytes) (k msg : Bytes)
    → In k secrets
    → 8 ≤ length (trim_space k)
    → IsHideable k
    → contains (clean (new_scrubber secrets) msg) k ≡ false
unfolding new_scrubber
clean-hides_secrets secrets k msg i long hide =
    contains-clean k hide (ne-nil_of_long k long) (new_scrubber secrets) msg
      (In-sort_longest k _ (In-keep_secrets k secrets long i))
