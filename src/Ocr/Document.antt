-- ===== src/Ocr/Document.antt =====
-- The document in a request to the OCR service (internal/ocr/client.go): a data URI that holds the PDF.
use bankstmt_analyzer.Prelude.{
  ℕ, ◌+◌, ◌-◌, ◌*◌, ◌/◌, ◌%◌, ◌<◌, false, ◌≡◌, refl, ap, ◌∙◌, ◌&&◌, [], ◌∷◌, ◌++◌, arith, All, ◌==◌,
  leb, if◌then◌else◌,
}
use bankstmt_analyzer.Text.{Bytes, codes}
use bankstmt_analyzer.Text.Base64.{sign, encode_base64}
use bankstmt_analyzer.Ocr.{Client, request_of}

-- The six bits of a sign
six_bits : ℕ → ℕ
six_bits c =
    if leb b'A' c && leb c b'Z'
    then c - b'A'
    else if leb b'a' c && leb c b'z'
    then c - b'a' + 26
    else if leb b'0' c && leb c b'9'
    then c - b'0' + 52
    else if c == b'+'
    then 62
    else 63

-- What Base64 with padding stands for, four signs at a time.
pub decode_base64 : Bytes → Bytes
unfolding six_bits
decode_base64 (p ∷ q ∷ r ∷ s ∷ rest) =
    let a = six_bits p in
    let b = six_bits q in
    let c = six_bits r in
    let d = six_bits s in
    let more = decode_base64 rest in
    if r == b'='
    then (a * 4 + b / 16) ∷ []
    else if s == b'='
    then (a * 4 + b / 16) ∷ (b % 16 * 16 + c / 4) ∷ []
    else (a * 4 + b / 16) ∷ (b % 16 * 16 + c / 4) ∷ (c % 4 * 64 + d) ∷ more
decode_base64 _ = []

six_bits-sign : (n : ℕ) → n < 64 → six_bits (sign n) ≡ n
unfolding six_bits sign
six_bits-sign n h = ground arith

sign_bounds : (n : ℕ) → n < 64 → (sign n == b'=') ≡ false
unfolding sign
sign_bounds n h = ground arith

abbrev IsByte : ℕ → Type 0
IsByte c = c < 256

-- Four signs without padding.
four_signs :
    (x y z w : ℕ) (rest : Bytes)
    → x < 64
    → y < 64
    → z < 64
    → w < 64
    → decode_base64 (sign x ∷ sign y ∷ sign z ∷ sign w ∷ rest)
      ≡ (x * 4 + y / 16) ∷ (y % 16 * 16 + z / 4) ∷ (z % 4 * 64 + w) ∷ decode_base64 rest
unfolding decode_base64
four_signs x y z w rest hx hy hz hw =
    rw
      (
        sign_bounds z hz,
        sign_bounds w hw,
        six_bits-sign x hx,
        six_bits-sign y hy,
        six_bits-sign z hz,
        six_bits-sign w hw,
      )
      refl

three_signs :
    (x y z : ℕ)
    → x < 64
    → y < 64
    → z < 64
    → decode_base64 (sign x ∷ sign y ∷ sign z ∷ b'=' ∷ [])
      ≡ (x * 4 + y / 16) ∷ (y % 16 * 16 + z / 4) ∷ []
unfolding decode_base64
three_signs x y z hx hy hz =
    rw (sign_bounds z hz, six_bits-sign x hx, six_bits-sign y hy, six_bits-sign z hz) refl

two_signs :
    (x y : ℕ)
    → x < 64
    → y < 64
    → decode_base64 (sign x ∷ sign y ∷ b'=' ∷ b'=' ∷ []) ≡ (x * 4 + y / 16) ∷ []
unfolding decode_base64
two_signs x y hx hy = rw (six_bits-sign x hx, six_bits-sign y hy) refl

first_byte : (a k : ℕ) → k < 16 → a / 4 * 4 + (a % 4 * 16 + k) / 16 ≡ a
first_byte a k h = omega arith

second_byte : (j b k : ℕ) → b < 256 → k < 4 → (j * 16 + b / 16) % 16 * 16 + (b % 16 * 4 + k) / 4 ≡ b
second_byte j b k h l = omega arith

third_byte : (j c : ℕ) → c < 256 → (j * 4 + c / 64) % 4 * 64 + c % 64 ≡ c
third_byte j c h = omega arith

no_signs : decode_base64 [] ≡ []
unfolding decode_base64
no_signs = refl

last_of_one : (a : ℕ) → a / 4 * 4 + a % 4 * 16 / 16 ≡ a
last_of_one a = omega arith

last_of_two : (j b : ℕ) → b < 256 → (j * 16 + b / 16) % 16 * 16 + b % 16 * 4 / 4 ≡ b
last_of_two j b h = omega arith

decode_base64-encode_base64 : (s : Bytes) → All IsByte s → decode_base64 (encode_base64 s) ≡ s
unfolding encode_base64
decode_base64-encode_base64 [] h = no_signs
decode_base64-encode_base64 (a ∷ []) h =
    two_signs (a / 4) (a % 4 * 16) (omega arith) (omega arith) ∙ ap (λ x. x ∷ []) (last_of_one a)
decode_base64-encode_base64 (a ∷ b ∷ []) h =
    three_signs (a / 4) (a % 4 * 16 + b / 16) (b % 16 * 4) (omega arith) (omega arith) (omega arith)
    ∙ rw (first_byte a (b / 16) (omega arith), last_of_two (a % 4) b h.1.0) refl
decode_base64-encode_base64 (a ∷ b ∷ c ∷ s) h =
    four_signs (a / 4) (a % 4 * 16 + b / 16) (b % 16 * 4 + c / 64) (c % 64) (encode_base64 s)
      (omega arith) (omega arith) (omega arith) (omega arith)
    ∙ rw
        (
          first_byte a (b / 16) (omega arith),
          second_byte (a % 4) b (c / 64) h.1.0 (omega arith),
          third_byte (b % 16) c h.1.1.0,
          decode_base64-encode_base64 s h.1.1.1,
        )
        refl

-- The document in the request for a PDF is a data URI of the type that the service expects, and what it holds
-- decodes to that PDF, byte for byte.
pub request_of-document :
    (client : Client) (pdf : Bytes)
    → All IsByte pdf
    → (held : Bytes) × ((request_of client pdf).document_url
        ≡ codes "data:application/pdf;base64," ++ held)
      × (decode_base64 held ≡ pdf)
unfolding request_of
request_of-document client pdf bytes =
    (encode_base64 pdf, refl, decode_base64-encode_base64 pdf bytes)
