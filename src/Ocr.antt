-- ===== src/Ocr.antt =====
-- internal/ocr: what the OCR client returns (ocr.go), and its requests and errors (client.go).
pub mod Document
pub mod Endpoint
use bankstmt_analyzer.Prelude.{
  ℕ, Bool, true, false, ◌||◌, List, [], ◌∷◌, ◌++◌, map, ◌==◌, leb, length, take, if◌then◌else◌,
}
use bankstmt_analyzer.Text.{Bytes, codes, is_empty, join}
use bankstmt_analyzer.Text.Space.{trim_space}
use bankstmt_analyzer.Text.Trim.{trim_left, trim_right}
use bankstmt_analyzer.Text.Base64.{encode_base64}
use bankstmt_analyzer.Config.{AzureOcr}
use bankstmt_analyzer.Go.{Error, plain, marked, wrap, error_text, Result, ok, err}

pub record Page : Type 0 where
  pub index : ℕ
  pub markdown : Bytes

abbrev pub Pages : Type 0
Pages = List Page

-- `Result.PageCount`
abbrev pub page_count : Pages → ℕ
page_count = length

-- `Result.Markdown`
unfoldable pub markdown : Pages → Bytes
unfolding trim_space join
markdown pages = join (map (λ page. trim_space page.markdown) pages) (codes "\n\n---\n\n")

-- An answer of the service: status code, status line, body, and the URL of the request.
pub record Response : Type 0 where
  pub status_code : ℕ
  pub status : Bytes
  pub body : Bytes
  pub url : Bytes

abbrev pub max_error_body_bytes : ℕ
max_error_body_bytes = 2048

-- `APIError.Retryable`
unfoldable pub is_retryable_status : ℕ → Bool
is_retryable_status code = code == 429 || leb 500 code

-- `newAPIError` and `APIError.Error`
unfoldable pub api_error : Bytes → Response → Error
unfolding is_retryable_status trim_space
api_error client resp =
    let body = trim_space (take max_error_body_bytes resp.body) in
    let for_url = if is_empty resp.url then [] else codes " for " ++ resp.url in
    let with_body = if is_empty body then [] else codes ": " ++ body in
    marked (is_retryable_status resp.status_code)
      (client ++ (codes ": request failed with " ++ (resp.status ++ (for_url ++ with_body))))

-- `Client`: the configured timeout is left out.
pub record Client : Type 0 where
  pub url : Bytes
  pub api_key : Bytes
  pub model : Bytes

-- `NewClient`
unfoldable pub new_client : AzureOcr → Result Client
unfolding trim_space trim_left trim_right
new_client cfg =
    let endpoint = trim_right (trim_space cfg.endpoint) b'/' in
    if is_empty endpoint
    then err (plain (codes "ocr: endpoint must not be empty"))
    else ok (record {
      url = endpoint ++ (codes "/" ++ trim_left cfg.path b'/');
      api_key = cfg.api_key;
      model = cfg.model;
    })

-- The POST request: its URL, its key, and the members of `request` and `document` in its body.
pub record Request : Type 0 where
  pub url : Bytes
  pub authorization : Bytes
  pub model : Bytes
  pub document_type : Bytes
  pub document_url : Bytes
  pub include_image_base64 : Bool

unfoldable pub request_of : Client → Bytes → Request
unfolding encode_base64
request_of c pdf = record {
  url = c.url;
  authorization = codes "Bearer " ++ c.api_key;
  model = c.model;
  document_type = codes "document_url";
  document_url = codes "data:application/pdf;base64," ++ encode_base64 pdf;
  include_image_base64 = false;
}

-- `Extract`: `build` is `http.NewRequestWithContext`, the request is sent by `http`, whose error is a transport
-- failure, and the body is decoded by `decode`. A request's body can always be encoded.
module _ (build : Request → Result (Unit {0})) (http : Request → Result Response)
    (decode : Bytes → Result Pages) where
  -- Pages that were decoded, of which there must be one.
  check_pages : Result Pages → Result Pages
  check_pages (err e) = err (wrap (codes "ocr: decode response") e)
  check_pages (ok []) = err (plain (codes "ocr: the service returned no pages"))
  check_pages (ok (p ∷ ps)) = ok (p ∷ ps)

  receive : Result Response → Result Pages
  unfolding check_pages api_error error_text
  receive (err e) = err (marked true (codes "ocr: " ++ error_text e))
  receive (ok resp) =
      if resp.status_code == 200
      then check_pages (decode resp.body)
      else err (api_error (codes "ocr") resp)

  send_request : Request → Result Pages
  unfolding receive
  send_request request = elim (build request) [
    | err e ↦ err (wrap (codes "ocr: build request") e)
    | ok _ ↦ receive (http request)
  ]

  unfoldable pub extract : Client → Bytes → Result Pages
  unfolding send_request request_of
  extract client [] = err (plain (codes "ocr: refusing to submit an empty document"))
  extract client (c ∷ pdf) = send_request (request_of client (c ∷ pdf))
