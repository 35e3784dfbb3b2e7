-- ===== src/Llm/Client/Accepted.antt =====
-- Which answers the model's client takes for a reply (`Analyze`, internal/llm/client.go).
use bankstmt_analyzer.Prelude.{
  ◌≡◌, refl, true, false, Bool-cases, inl, inr, List, [], ◌∷◌, arith, ◌==◌,
}
use bankstmt_analyzer.Text.{Bytes, codes, bytes_eq}
use bankstmt_analyzer.Go.{Result, ok, err}
use bankstmt_analyzer.Llm.{Statement, Response}
use bankstmt_analyzer.Llm.Reply.Complete.{Parsed, parse_response-Parsed}
use bankstmt_analyzer.Ocr
use bankstmt_analyzer.Llm.Client.{
  Choice, Client, ChatRequest, chat_request, take_choice, receive, send_built, analyze,
}

-- The deployment answered the request with 200, and the content of its first choice, which was not cut off, is the
-- text of the reply.
pub record Accepted (http : ChatRequest → Result Ocr.Response)
    (choices : Bytes → Result (List Choice)) (members : Bytes → Result (List Bytes))
    (decode : Bytes → Result Response) (request : ChatRequest) (reply : Response) : Type 0 where
  pub answer : Ocr.Response
  pub first : Choice
  pub others : List Choice
  pub answered : http request ≡ ok answer
  pub success : answer.status_code == 200 ≡ true
  pub chosen : choices answer.body ≡ ok (first ∷ others)
  pub whole : bytes_eq first.finish_reason (codes "length") ≡ false
  pub parsed : Parsed members decode first.content reply

module _ (build : ChatRequest → Result (Unit {0})) (http : ChatRequest → Result Ocr.Response)
    (choices : Bytes → Result (List Choice)) (members : Bytes → Result (List Bytes))
    (decode : Bytes → Result Response) where
  take_choice-ok :
      (r : Result (List Choice)) {reply : Response}
      → take_choice build http choices members decode r ≡ ok reply
      → (first : Choice) × (others : List Choice) × (r ≡ ok (first ∷ others))
        × (bytes_eq first.finish_reason (codes "length") ≡ false)
        × Parsed members decode first.content reply
  unfolding take_choice
  take_choice-ok (err e) h = absurd (ground arith)
  take_choice-ok (ok []) h = absurd (ground arith)
  take_choice-ok (ok (c ∷ cs)) h = elim (Bool-cases (bytes_eq c.finish_reason (codes "length"))) [
    | inl cut ↦ absurd (ground arith)
    | inr whole ↦
        (c, cs, refl, whole, parse_response-Parsed members decode c.content (rw whole at h))
  ]

  receive-Accepted :
      (request : ChatRequest) (r : Result Ocr.Response) {reply : Response}
      → http request ≡ r
      → receive build http choices members decode r ≡ ok reply
      → Accepted http choices members decode request reply
  unfolding receive
  receive-Accepted request (err e) answered h = absurd (ground arith)
  receive-Accepted request (ok answer) answered h = elim (Bool-cases (answer.status_code == 200)) [
    | inr other ↦ absurd (ground arith)
    | inl success ↦
        let (first, others, chosen, whole, parsed) =
          take_choice-ok (choices answer.body) (rw success at h) in
        record {
          answer = answer;
          first = first;
          others = others;
          answered = answered;
          success = success;
          chosen = chosen;
          whole = whole;
          parsed = parsed;
        }
  ]

  send_built-Accepted :
      (request : ChatRequest) (r : Result (Unit {0})) {reply : Response}
      → send_built build http choices members decode request r ≡ ok reply
      → Accepted http choices members decode request reply
  unfolding send_built
  send_built-Accepted request (err e) h = absurd (ground arith)
  send_built-Accepted request (ok _) h = receive-Accepted request (http request) refl h

  -- When the model's client returns a reply, the deployment answered the request
  -- for the statements with 200, its first choice was not cut off by the output limit, and that choice's content is
  -- an object with all required members that decodes to the reply, which has a currency and keeps the content.
  pub analyze-Accepted :
      (client : Client) (ss : List Statement) {reply : Response}
      → analyze build http choices members decode client ss ≡ ok reply
      → Accepted http choices members decode (chat_request client ss) reply
  unfolding analyze
  analyze-Accepted client [] h = absurd (ground arith)
  analyze-Accepted client (s ∷ ss) h =
      send_built-Accepted (chat_request client (s ∷ ss)) (build (chat_request client (s ∷ ss))) h
