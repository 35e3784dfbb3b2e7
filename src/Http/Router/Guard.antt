-- ===== src/Http/Router/Guard.antt =====
-- The key that guards the API (internal/http/router.go and middleware.go).
use bankstmt_analyzer.Prelude.{◌≡◌, true}
use bankstmt_analyzer.Text.{Bytes, codes, has_prefix}
use bankstmt_analyzer.Config.{Config}
use bankstmt_analyzer.World.{World}
use bankstmt_analyzer.Http.Problem.{Response, status_code}
use bankstmt_analyzer.Http.Router.{
  Endpoint, healthz, readyz, create_upload, upload_status, visualization, swagger_page,
  swagger_redirect, Match, endpoint, no_resource, no_method, Incoming,
}

-- How the pattern begins under which `NewRouter` and `mountSwagger` register the endpoint, up to its first variable.
abbrev pub literal : Endpoint → Bytes
literal healthz = codes "/healthz"
literal readyz = codes "/readyz"
literal create_upload = codes "/api/v1/uploads"
literal upload_status = codes "/api/v1/uploads/"
literal visualization = codes "/api/v1/uploads/"
literal swagger_page = codes "/swagger/"
literal swagger_redirect = codes "/swagger"

-- The router finds an endpoint only for a path that begins as the endpoint's pattern does.
abbrev pub Finds : Bytes → Match → Type 0
Finds path (endpoint e) = has_prefix path (literal e) ≡ true
Finds path no_resource = Unit
Finds path no_method = Unit

module _ (Body : Type 0) (c : Config) (r : Incoming) where
  -- A 401, and nothing changed.
  abbrev pub Refuses : World → Response Body × World → Type 0
  Refuses w answer = (status_code answer.0 ≡ 401) × (answer.1 ≡ w)
