-- ===== src/Http/Router.antt =====
-- internal/http/router.go, middleware.go, health.go and swagger.go: which endpoints there are, what stands before
-- them, and the endpoints that are not about uploads. Matching a request's path and method with the endpoints
-- that are registered is the router library's; a request comes with what it has found.
pub mod Guard
use bankstmt_analyzer.Prelude.{
  ℕ, Bool, true, false, Option, none, some, List, [], ◌∷◌, ◌++◌, ◌||◌, ◌==◌, leb, if◌then◌else◌,
}
use bankstmt_analyzer.Text.{Bytes, codes, bytes_eq, has_prefix, is_empty}
use bankstmt_analyzer.Go.{plain, Error, Result, ok, err}
use bankstmt_analyzer.Config.{Config, is_production}
use bankstmt_analyzer.Logging.{Level, info, warn, error}
use bankstmt_analyzer.World.{World}
use bankstmt_analyzer.Http.Problem.{
  Response, problem, json, RequestInfo, new_problem, write_problem,
}

-- What is registered: the two probes, the three endpoints for uploads, and the two of the OpenAPI page.
pub data Endpoint : Type 0 where
  healthz readyz create_upload upload_status visualization swagger_page swagger_redirect : Endpoint

-- `levelForStatus`
unfoldable pub level_for_status : ℕ → Level
level_for_status status = if leb 500 status then error else if leb 400 status then warn else info

-- The dependencies that `Deps.validate` looks at: whether each is there, and the key.
pub record Deps : Type 0 where
  pub logger : Bool
  pub db : Bool
  pub store : Bool
  pub blobs : Bool
  pub enqueuer : Bool
  pub config : Config

abbrev need : Bool → Bytes → Result (Unit {0}) → Result (Unit {0})
need true name rest = rest
need false name rest = err (plain (codes "http: Deps." ++ (name ++ codes " is required")))

-- `Deps.validate`
unfoldable pub validate_deps : Deps → Result (Unit {0})
validate_deps d = need d.logger (codes "Logger") (
    need d.db (codes "DB") (
      need d.store (codes "Store") (
        need d.blobs (codes "Blobs") (
          need d.enqueuer (codes "Enqueuer") (
            if is_empty d.config.api_key
            then err (plain (codes "http: Deps.Config.APIKey is required"))
            else ok tt)))))

-- `NewRouter` and `mountSwagger`: the endpoints that are registered.
unfoldable pub registered : Config → List Endpoint
unfolding is_production
registered c =
    healthz
    ∷ readyz
    ∷ create_upload
    ∷ upload_status
    ∷ visualization
    ∷ (if is_production c then [] else swagger_page ∷ swagger_redirect ∷ [])

-- The endpoints below `r.Route("/api/v1", …)`
abbrev pub under_api : Endpoint → Bool
under_api create_upload = true
under_api upload_status = true
under_api visualization = true
under_api _ = false

-- A path that the router hands on to the routes below `/api/v1`.
unfoldable pub below_api : Bytes → Bool
unfolding bytes_eq has_prefix
below_api path = bytes_eq path (codes "/api/v1") || has_prefix path (codes "/api/v1/")

-- What the router finds for a request: an endpoint, none for its path, or none for its method.
pub data Match : Type 0 where
  endpoint : Endpoint → Match
  no_resource no_method : Match

-- The headers and the path of a request; the router matches the path as it was sent, with its escapes.
pub record Incoming : Type 0 where
  pub info : RequestInfo
  pub sent_path : Bytes
  pub api_key : Bytes

module _ (Body : Type 0) where
  abbrev pub Handler : Type 0
  Handler = World → Response Body × World

  -- `requireAPIKey`: `ConstantTimeCompare` finds texts equal as `==` does.
  unfoldable pub require_api_key : Bytes → Incoming → Handler → Handler
  unfolding bytes_eq write_problem new_problem
  require_api_key key r next w = if bytes_eq r.api_key key then next w else (
    write_problem r.info (some (new_problem 401 (codes "A valid api-key header is required."))),
    w,
  )

  -- How a handler ends: with a response, or in a panic, which may be the one that abandons it.
  pub data Outcome : Type 0 where
    returned : Response Body × World → Outcome
    panicked : Bool → World → Outcome

  -- `recoverer`: `none` is the panic that goes on, of `http.ErrAbortHandler`.
  unfoldable pub recoverer : Incoming → Outcome → Option (Response Body × World)
  unfolding write_problem new_problem
  recoverer r (returned answer) = some answer
  recoverer r (panicked true w) = none
  recoverer r (panicked false w) =
      some
        (write_problem r.info (some (new_problem 500 (codes "An unexpected error occurred."))), w)

  -- The guard of the routes below `/api/v1`, which also stands before their answers to an unknown path or method.
  abbrev guarded : Bool → Config → Incoming → Handler → Handler
  unfolding require_api_key
  guarded true c r next = require_api_key c.api_key r next
  guarded false c r next = next

  -- The routes of `NewRouter`, with their guard.
  unfoldable pub route : Config → Incoming → (Endpoint → Handler) → Match → Handler
  unfolding guarded require_api_key below_api write_problem new_problem
  route c r handlers (endpoint e) = guarded (under_api e) c r (handlers e)
  route c r handlers no_resource = guarded (below_api r.sent_path) c r (λ w. (
    write_problem r.info (some (new_problem 404 (codes "The requested resource does not exist."))),
    w,
  ))
  route c r handlers no_method = guarded (below_api r.sent_path) c r (λ w. (
    write_problem r.info
        (some (new_problem 405 (codes "That method is not allowed on this resource."))),
    w,
  ))

-- `live` and `ready`; `ping` is the database's answer.
unfoldable pub live : Response Bytes
live = json 200 (codes "ok")

unfoldable pub ready : RequestInfo → Result (Unit {0}) → Response Bytes
unfolding write_problem new_problem
ready r (ok _) = json 200 (codes "ok")
ready r (err e) = write_problem r (some (new_problem 503 (codes "The database is not reachable.")))
