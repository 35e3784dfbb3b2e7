-- ===== src/Config/Keys.antt =====
-- What a configuration that `Load` (internal/config/config.go) accepts is known to satisfy, and that its key
-- stays out of what the scrubber (internal/pipeline/scrub.go) has cleaned.
use bankstmt_analyzer.Prelude.{
  ℕ, ◌≤◌, ◌≡◌, ◌≢◌, refl, subst, Bool, true, false, not, Bool-cases, if◌then◌else◌, List, [], ◌∷◌,
  arith, length, ◌==◌, All, In, inl, inr,
}
use bankstmt_analyzer.Text.{Bytes, codes, contains, has_prefix, is_empty}
use bankstmt_analyzer.Text.Space.Plain.{IsPlain, trim_space-plain}
use bankstmt_analyzer.Text.Search.{Lacks, ends_with}
use bankstmt_analyzer.Go.{Result, ok, err}
use bankstmt_analyzer.Go.Integers.{ℤ, below}
use bankstmt_analyzer.Go.Results.{>>-eq-ok, ok-injective}
use bankstmt_analyzer.Config.{
  Config, load, validate, validate_api_key, at_least, check, decodes, is_hex, all_hex, secrets,
  set_values,
}
use bankstmt_analyzer.Pipeline.Scrub.{clean, new_scrubber}
use bankstmt_analyzer.Pipeline.Scrub.Hides.{IsHideable, clean-hides_secrets}

-- The limits are usable, and the key is 32 hexadecimal digits.
pub record IsUsable (c : Config) : Type 0 where
  pub digits : all_hex c.api_key ≡ true
  pub size : length c.api_key ≡ 32
  pub max_files : below c.upload.max_files 1 ≡ false
  pub max_file_bytes : below c.upload.max_file_bytes 1 ≡ false
  pub concurrency : below c.worker.concurrency 1 ≡ false
  pub max_retry : below c.worker.max_retry 0 ≡ false

check-passed : (b : Bool) (text : Bytes) {u : Unit {0}} → check b text ≡ ok u → b ≡ false
check-passed false text h = refl
check-passed true text h = ground arith

key-passed :
    (key : Bytes) {u : Unit {0}}
    → validate_api_key key ≡ ok u
    → (all_hex key ≡ true) × (length key ≡ 32)
unfolding validate_api_key
key-passed key h =
    let (_, a, rest) = >>-eq-ok _ _ h in
    let wide = check-passed (not (length key == 32)) _ a in
    let hex = check-passed (not (decodes key)) _ rest in (ground arith, ground arith)

at_least-passed :
    (name : Bytes) (least : ℕ) (value : ℤ) {u : Unit {0}}
    → at_least name least value ≡ ok u
    → below value least ≡ false
unfolding at_least
at_least-passed name least value h = check-passed (below value least) _ h

validate-passed : (c : Config) {u : Unit {0}} → validate c ≡ ok u → IsUsable c
unfolding validate
validate-passed c h =
    let (_, a, h1) = >>-eq-ok _ _ h in
    let (_, b, h2) = >>-eq-ok _ _ h1 in
    let (_, d, h3) = >>-eq-ok _ _ h2 in
    let (_, e, h4) = >>-eq-ok _ _ h3 in
    let (_, f, g) = >>-eq-ok _ _ h4 in
    record {
      digits = (key-passed c.api_key b).0;
      size = (key-passed c.api_key b).1;
      max_files = at_least-passed (codes "UPLOAD_MAX_FILES") 1 c.upload.max_files d;
      max_file_bytes = at_least-passed (codes "UPLOAD_MAX_FILE_BYTES") 1 c.upload.max_file_bytes e;
      concurrency = at_least-passed (codes "WORKER_CONCURRENCY") 1 c.worker.concurrency f;
      max_retry = at_least-passed (codes "WORKER_MAX_RETRY") 0 c.worker.max_retry g;
    }

pub load-passed : (parsed : Result Config) {c : Config} → load parsed ≡ ok c → IsUsable c
unfolding load
load-passed (err e) h = ground arith
load-passed (ok b) h =
    let (_, passed, same) = >>-eq-ok _ _ h in
    subst IsUsable (ok-injective same) (validate-passed b passed)

ne_of_hex : (b c : ℕ) → is_hex b ≡ false → is_hex c ≡ true → c ≢ b
ne_of_hex b c n h = λ e. ground arith

-- No byte of the key is one of those that white space, brackets and dots are written with.
pub hex-Lacks : (b : ℕ) (s : Bytes) → is_hex b ≡ false → all_hex s ≡ true → Lacks b s
hex-Lacks b [] n h = tt
hex-Lacks b (c ∷ s) n h = (ne_of_hex b c n (ground arith), hex-Lacks b s n (ground arith))

has_prefix-length : (s k : Bytes) → has_prefix s k ≡ true → length k ≤ length s
unfolding has_prefix
has_prefix-length s [] h = omega arith
has_prefix-length [] (p ∷ k) h = ground arith
has_prefix-length (c ∷ s) (p ∷ k) h = ground (arith, has_prefix-length s k)

contains-length : (s k : Bytes) → contains s k ≡ true → length k ≤ length s
unfolding contains
contains-length [] k h = has_prefix-length [] k h
contains-length (c ∷ s) k h = ground (arith, has_prefix-length (c ∷ s) k, contains-length s k)

hex-ends_with : (s : Bytes) → all_hex s ≡ true → ends_with b'.' s ≡ false
hex-ends_with [] h = refl
hex-ends_with (c ∷ []) h = ground arith
hex-ends_with (c ∷ d ∷ s) h = hex-ends_with (d ∷ s) (ground arith)

hex-IsPlain : (s : Bytes) → all_hex s ≡ true → All IsPlain s
hex-IsPlain [] h = tt
hex-IsPlain (c ∷ s) h = ((ground arith, ground arith), hex-IsPlain s (ground arith))

no-room : (k : Bytes) → length k ≡ 32 → contains (codes "redacted") k ≡ false
no-room k n = elim (Bool-cases (contains (codes "redacted") k)) [
  | inl held ↦ absurd (omega (arith, contains-length (codes "redacted") k held, n))
  | inr lacking ↦ lacking
]

key-IsHideable : (k : Bytes) → all_hex k ≡ true → length k ≡ 32 → IsHideable k
key-IsHideable k h n = record {
  no_left = hex-Lacks b'[' k refl h;
  no_right = hex-Lacks b']' k refl h;
  no_space = hex-Lacks b' ' k refl h;
  not_redacted = no-room k n;
  no_dot = hex-ends_with k h;
}

In-set_values : (k : Bytes) (ss : List Bytes) → is_empty k ≡ false → In k ss → In k (set_values ss)
unfolding set_values
In-set_values k [] ne i = i
In-set_values k (s ∷ ss) ne (inl e) = rw (← e, ne) (inl refl)
In-set_values k (s ∷ ss) ne (inr i) =
    elim (is_empty s) as (λ b. In k (if not b then s ∷ set_values ss else set_values ss)) [
      | true ↦ In-set_values k ss ne i
      | false ↦ inr (In-set_values k ss ne i)
    ]

not_empty : (k : Bytes) → length k ≡ 32 → is_empty k ≡ false
not_empty [] n = ground arith
not_empty (c ∷ k) n = refl

In-secrets : (c : Config) → is_empty c.api_key ≡ false → In c.api_key (secrets c)
unfolding secrets
In-secrets c ne =
    In-set_values c.api_key
      (c.ocr.api_key ∷ c.open_ai.api_key ∷ c.database_url ∷ c.s3.secret_access_key ∷ c.api_key ∷ [])
      ne (inr (inr (inr (inr (inl refl)))))

-- A message that was cleaned with the secrets of a configuration that was accepted does not hold its
-- API key, which is 32 hexadecimal digits.
pub load-hides_key :
    (parsed : Result Config) (msg : Bytes) {c : Config}
    → load parsed ≡ ok c
    → (length c.api_key ≡ 32)
      × (all_hex c.api_key ≡ true)
      × (contains (clean (new_scrubber (secrets c)) msg) c.api_key ≡ false)
unfolding secrets
load-hides_key parsed msg {c} h =
    let usable = load-passed parsed h in
    (
      usable.size,
      usable.digits,
      clean-hides_secrets (secrets c) c.api_key msg (In-secrets c (not_empty c.api_key usable.size))
          (rw (trim_space-plain c.api_key (hex-IsPlain c.api_key usable.digits))
            (omega (arith, usable.size)))
          (key-IsHideable c.api_key usable.digits usable.size),
    )
