-- ===== src/Llm/Client.antt =====
-- internal/llm/client.go: one request to the deployment, and what its answer is taken for.
pub mod Accepted
use bankstmt_analyzer.Prelude.{
  ℕ, Bool, true, false, Option, none, some, List, [], ◌∷◌, ◌++◌, ◌==◌, if◌then◌else◌,
}
use bankstmt_analyzer.Text.{Bytes, codes, is_empty, bytes_eq, contains, to_lower, quote}
use bankstmt_analyzer.Text.Space.{trim_space}
use bankstmt_analyzer.Text.Trim.{trim_right}
use bankstmt_analyzer.Text.Escape.{path_escape, query_escape}
use bankstmt_analyzer.Config.{AzureOpenAi}
use bankstmt_analyzer.Go.{Error, plain, wrap, marked, error_text, Result, ok, err}
use bankstmt_analyzer.Ocr
use bankstmt_analyzer.Llm.{Statement, Response}
use bankstmt_analyzer.Llm.Reply.{invalid_response, parse_response, build_user_message}

pub record Choice : Type 0 where
  pub finish_reason : Bytes
  pub content : Bytes

-- `Client`: the configured timeout is left out.
pub record Client : Type 0 where
  pub url : Bytes
  pub api_key : Bytes
  pub system_prompt : Bytes

-- The POST request: its URL, its key, and the members of `chatRequest` in its body, with the contents of the
-- messages of the roles `system` and `user`.
pub record ChatRequest : Type 0 where
  pub url : Bytes
  pub api_key : Bytes
  pub system : Bytes
  pub user : Bytes
  pub temperature : ℕ
  pub response_format : Bytes

unfoldable pub chat_request : Client → List Statement → ChatRequest
unfolding build_user_message
chat_request c ss = record {
  url = c.url;
  api_key = c.api_key;
  system = c.system_prompt;
  user = build_user_message ss;
  temperature = 0;
  response_format = codes "json_object";
}

-- `http.NewRequestWithContext`, the deployment, `encoding/json` on the answer's envelope, on an object's members
-- and on the reply. A request's body can always be encoded.
module _ (build : ChatRequest → Result (Unit {0})) (http : ChatRequest → Result Ocr.Response)
    (choices : Bytes → Result (List Choice)) (members : Bytes → Result (List Bytes))
    (decode : Bytes → Result Response) where
  take_choice : Result (List Choice) → Result Response
  unfolding parse_response bytes_eq
  take_choice (err e) = err (wrap (codes "llm: decode response envelope") e)
  take_choice (ok []) = err (invalid_response (codes "the reply contained no choices"))
  take_choice (ok (c ∷ cs)) =
      if bytes_eq c.finish_reason (codes "length")
      then err (invalid_response (codes "the reply was truncated by the model's output limit"))
      else parse_response members decode c.content

  receive : Result Ocr.Response → Result Response
  unfolding take_choice Ocr.api_error error_text
  receive (err e) = err (marked true (codes "llm: " ++ error_text e))
  receive (ok resp) =
      if resp.status_code == 200
      then take_choice (choices resp.body)
      else err (Ocr.api_error (codes "llm") resp)

  send_built : ChatRequest → Result (Unit {0}) → Result Response
  unfolding receive
  send_built request (err e) = err (wrap (codes "llm: build request") e)
  send_built request (ok _) = receive (http request)

  -- `Analyze`
  unfoldable pub analyze : Client → List Statement → Result Response
  unfolding send_built chat_request
  analyze client [] = err (plain (codes "llm: refusing to analyse zero statements"))
  analyze client (s ∷ ss) =
      let request = chat_request client (s ∷ ss) in send_built request (build request)

abbrev pub api_path_markers : List Bytes
api_path_markers =
    codes "/openai" ∷ codes "/models" ∷ codes "/chat/completions" ∷ codes "/responses" ∷ []

-- The loop over `apiPathMarkers`.
names_api : List Bytes → Bytes → Bool
unfolding contains
names_api [] path = false
names_api (m ∷ ms) path = if contains path m then true else names_api ms path

-- `checkEndpointIsBase`, where `url_path` is the path that `url.Parse` finds.
unfoldable pub check_endpoint_is_base : (Bytes → Result Bytes) → Bytes → Option Error
unfolding names_api to_lower
check_endpoint_is_base url_path endpoint = elim (url_path endpoint) [
  | err e ↦
      some (wrap (codes "llm: endpoint " ++ (quote endpoint ++ codes " is not a valid URL")) e)
  | ok path ↦
      if names_api api_path_markers (to_lower path)
      then some (
          plain (
            codes "llm: endpoint "
            ++ (quote endpoint
                ++ (codes
                      " must be the resource base URL (for example https://<resource>.services.ai.azure.com), "
                    ++ codes
                        "not the full request URL; the deployment path is appended automatically"))))
      else none
]

-- The URL of the deployment's chat completions.
abbrev pub target : Bytes → AzureOpenAi → Bytes
unfolding path_escape query_escape
target endpoint cfg =
    endpoint
    ++ (codes "/openai/deployments/"
        ++ (path_escape cfg.deployment
            ++ (codes "/chat/completions?api-version=" ++ query_escape cfg.api_version)))

-- `NewClient`
unfoldable pub new_client : (Bytes → Result Bytes) → AzureOpenAi → Bytes → Result Client
unfolding trim_space trim_right check_endpoint_is_base target path_escape query_escape
new_client url_path cfg system_prompt =
    let endpoint = trim_right (trim_space cfg.endpoint) b'/' in
    if is_empty endpoint
    then err (plain (codes "llm: endpoint must not be empty"))
    else elim (check_endpoint_is_base url_path endpoint) [
      | some e ↦ err e
      | none ↦
          if is_empty (trim_space system_prompt)
          then err (plain (codes "llm: the system prompt must not be empty"))
          else ok (record {
            url = target endpoint cfg;
            api_key = cfg.api_key;
            system_prompt = system_prompt;
          })
    ]
