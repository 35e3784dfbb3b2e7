-- ===== src/Http/Problem.antt =====
-- internal/http/problem.go: RFC 7807 problem documents, and the responses of the handlers.
use bankstmt_analyzer.Prelude.{ℕ, Option, none, some, List, [], ◌==◌, if◌then◌else◌}
use bankstmt_analyzer.Text.{Bytes, codes, is_empty}
use bankstmt_analyzer.Go.{Error}

pub record InvalidParam : Type 0 where
  pub name : Bytes
  pub reason : Bytes

pub record Problem : Type 0 where
  pub kind : Bytes
  pub title : Bytes
  pub status : ℕ
  pub detail : Bytes
  pub instance_path : Bytes
  pub request_id : Bytes
  pub invalid_params : List InvalidParam

-- `http.StatusText`, at the codes that the program uses; the text of any other is left empty.
unfoldable pub status_text : ℕ → Bytes
status_text code =
    if code == 400
    then codes "Bad Request"
    else if code == 401
    then codes "Unauthorized"
    else if code == 404
    then codes "Not Found"
    else if code == 405
    then codes "Method Not Allowed"
    else if code == 409
    then codes "Conflict"
    else if code == 413
    then codes "Request Entity Too Large"
    else if code == 500
    then codes "Internal Server Error"
    else if code == 503
    then codes "Service Unavailable"
    else []

abbrev pub about_blank : Bytes
about_blank = codes "about:blank"

-- `NewProblem`
unfoldable pub new_problem : ℕ → Bytes → Problem
unfolding status_text
new_problem status detail = record {
  kind = about_blank;
  title = status_text status;
  status = status;
  detail = detail;
  instance_path = [];
  request_id = [];
  invalid_params = [];
}

-- What a handler writes: a problem document, or the value that it serialises as JSON.
pub data Response (A : Type 0) : Type 0 where
  problem : Problem → Response A
  json : ℕ → A → Response A

-- The path and the request id that `WriteProblem` takes from the request.
pub record RequestInfo : Type 0 where
  pub path : Bytes
  pub id : Bytes

abbrev or_default : Bytes → Bytes → Bytes
or_default a b = if is_empty a then b else a

-- `WriteProblem` on a problem that is there: what is left out is filled in.
unfoldable pub fill_problem : RequestInfo → Problem → Problem
unfolding status_text
fill_problem r p =
    let status = if p.status == 0 then 500 else p.status in
    record {
      kind = or_default p.kind about_blank;
      title = or_default p.title (status_text status);
      status = status;
      detail = p.detail;
      instance_path = or_default p.instance_path r.path;
      request_id = or_default p.request_id r.id;
      invalid_params = p.invalid_params;
    }

-- `WriteProblem`; `none` is a nil problem.
unfoldable pub write_problem : {A : Type 0} → RequestInfo → Option Problem → Response A
unfolding fill_problem new_problem
write_problem r none = problem (fill_problem r (new_problem 500 []))
write_problem r (some p) = problem (fill_problem r p)

-- An error as `WriteError` sees it: a problem that a handler authored, or any other.
pub data HandlerError : Type 0 where
  authored : Problem → HandlerError
  internal : Error → HandlerError

-- `WriteError`
unfoldable pub write_error : {A : Type 0} → RequestInfo → HandlerError → Response A
unfolding write_problem new_problem
write_error r (authored p) = write_problem r (some p)
write_error r (internal e) =
    write_problem r (some (new_problem 500 (codes "An unexpected error occurred.")))

-- The status code that goes on the wire.
abbrev pub status_code : {A : Type 0} → Response A → ℕ
status_code (problem p) = p.status
status_code (json status a) = status
