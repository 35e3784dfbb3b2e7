-- ===== src/Tests/Clients.antt =====
-- Concrete runs of the clients' construction and of their requests.
use bankstmt_analyzer.Prelude.{
  ◌≡◌, refl, Bool, Option, true, false, none, some, List, [], ◌∷◌, ◌++◌, arith,
}
use bankstmt_analyzer.Text.{Bytes, codes}
use bankstmt_analyzer.Go.{Error, Result, ok}
use bankstmt_analyzer.Ocr
use bankstmt_analyzer.Ocr.{Client, new_client, request_of}
use bankstmt_analyzer.Ocr.Document.{decode_base64, request_of-document}
use bankstmt_analyzer.Llm.{Statement, Response}
use bankstmt_analyzer.Llm.Client
use bankstmt_analyzer.Llm.Client.{Choice, ChatRequest, chat_request}
use bankstmt_analyzer.Llm.Client.Accepted.{Accepted, analyze-Accepted}
use bankstmt_analyzer.Tests.Config.{config}
use bankstmt_analyzer.Tests.Steps.{reply}

abbrev reader : Client
reader = record { url = codes "https://ocr/ocr"; api_key = codes "k"; model = codes "m" }

request_of-document_example :
    (held : Bytes) × ((request_of reader (codes "%PDF-1.7")).document_url
      ≡ codes "data:application/pdf;base64," ++ held)
    × (decode_base64 held ≡ codes "%PDF-1.7")
request_of-document_example = request_of-document reader (codes "%PDF-1.7") (omega arith)

encoded :
    (request_of reader (codes "%PDF-1.7")).document_url
    ≡ codes "data:application/pdf;base64,JVBERi0xLjc="
unfolding request_of
encoded = refl

reader_url :
    new_client config.ocr
    ≡ ok (record { url = codes "https://ocr/ocr"; api_key = codes "ocr-key-1"; model = codes "m" })
unfolding new_client
reader_url = refl

abbrev model : Client.Client
model = record {
  url = codes "https://llm/openai/deployments/d%20e/chat/completions?api-version=2024-10-21";
  api_key = codes "llm-key-1";
  system_prompt = codes "Read.";
}

model_url :
    Client.new_client
      (λ _. ok [])
      (record (config.open_ai) { deployment = codes "d e" })
      (codes "Read.")
    ≡ ok model
unfolding Client.new_client
model_url = refl

abbrev refuses : Option Error → Bool
refuses none = false
refuses (some e) = true

-- The URL of a request in the place of the endpoint.
full_url :
    refuses (
      Client.check_endpoint_is_base
        (λ _. ok (codes "/OpenAI/deployments/x"))
        (codes "https://llm/OpenAI/deployments/x"))
    ≡ true
unfolding Client.check_endpoint_is_base
full_url = refl

abbrev choice : Choice
choice = record { finish_reason = codes "stop"; content = codes "{}" }

abbrev choices : Bytes → Result (List Choice)
choices _ = ok (choice ∷ [])

abbrev members : Bytes → Result (List Bytes)
members _ = ok (codes "transactions" ∷ codes "chart_data" ∷ codes "analysis" ∷ [])

abbrev decode : Bytes → Result Response
decode _ = ok reply

abbrev serve : ChatRequest → Result Ocr.Response
serve _ = ok (record { status_code = 200; status = codes "200 OK"; body = []; url = [] })

abbrev statement : Statement
statement = record { filename = codes "a.pdf"; markdown = codes "Rent" }

analyze-Accepted_example :
    Accepted serve choices members decode (chat_request model (statement ∷ [])) reply
unfolding Client.analyze
analyze-Accepted_example =
    analyze-Accepted (λ _. ok tt) serve choices members decode model (statement ∷ []) refl
