-- ===== src/Ocr/Endpoint.antt =====
-- The URL that the OCR client is built for (`NewClient`, internal/ocr/client.go).
use bankstmt_analyzer.Prelude.{
  ℕ, zero, suc, ◌≡◌, ◌≢◌, refl, false, [], ◌∷◌, ◌++◌, arith, replicate, All,
}
use bankstmt_analyzer.Text.{Bytes, codes}
use bankstmt_analyzer.Text.Search.{ends_with}
use bankstmt_analyzer.Text.Space.Plain.{IsPlain, trim_space-plain}
use bankstmt_analyzer.Text.Trim.{starts_with_byte, trim_left-replicate, trim_right-replicate}
use bankstmt_analyzer.Go.{ok}
use bankstmt_analyzer.Config.{AzureOcr}
use bankstmt_analyzer.Ocr.{new_client}

All-replicate : (P : ℕ → Type 0) (s : Bytes) (n b : ℕ) → P b → All P s → All P (s ++ replicate n b)
All-replicate P [] zero b p h = tt
All-replicate P [] (suc n) b p h = (p, All-replicate P [] n b p tt)
All-replicate P (c ∷ s) n b p h = (h.0, All-replicate P s n b p h.1)

-- However many slashes the endpoint ends with and the path begins with, the client is built for the endpoint and
-- the path joined by one slash, with the configured key and model. The endpoint is one of visible ASCII bytes.
pub new_client-joins :
    (cfg : AzureOcr) (base path : Bytes) (n m : ℕ)
    → base ≢ []
    → All IsPlain base
    → ends_with b'/' base ≡ false
    → starts_with_byte b'/' path ≡ false
    → new_client
        (record cfg { endpoint = base ++ replicate n b'/'; path = replicate m b'/' ++ path })
      ≡ ok (record { url = base ++ (codes "/" ++ path); api_key = cfg.api_key; model = cfg.model })
unfolding new_client
new_client-joins cfg [] path n m some_base plain ends starts = absurd (some_base refl)
new_client-joins cfg (c ∷ base) path n m some_base plain ends starts =
    rw
      (
        trim_space-plain ((c ∷ base) ++ replicate n b'/')
            (All-replicate IsPlain (c ∷ base) n b'/' (omega arith, refl) plain),
        trim_right-replicate b'/' n (c ∷ base) ends,
        trim_left-replicate b'/' m path starts,
      )
      refl
