-- ===== src/Application.antt =====
-- app/main.py: the middlewares around the routes, in the order in which `create_app` registers them,
-- and the handlers of the service itself. The middlewares that are the framework's or the limiter
-- library's are parameters, with the documented behaviour that the program relies on.
pub mod Layers
pub mod Laws
use bookmarks_api.Prelude.{
  ℕ, ◌≡◌, Bool, true, false, Option, none, some, List, [], ◌∷◌, ◌++◌, if◌then◌else◌,
}
use bookmarks_api.Text.{Text, codes, text_eq, starts_with}
use bookmarks_api.Dict.{get}
use bookmarks_api.Json.{Json, null, text, obj, end, field}
use bookmarks_api.Errors.{handle_exception, unexpected, or_else}
use bookmarks_api.Config.{Settings, cors_origin_list, trusted_host_list}
use bookmarks_api.Middleware.{
  Response, add_security_headers, dispatch_request_id, dispatch_body_size, request_id_for,
}

-- What the middlewares read of a request: `fresh_id` is the `uuid4().hex` that would be made for it,
-- and `state_id` what `request.state.request_id` holds.
pub record HttpRequest : Type 0 where
  pub host : Text
  pub is_preflight : Bool
  pub request_id : Option Text
  pub fresh_id : Text
  pub content_length : Option Text
  pub state_id : Option Text

-- What is inside a middleware: `none` is an exception that no handler inside of it answers.
abbrev pub Handler : Type 0
Handler = HttpRequest → Option Response

-- The change that a middleware makes to a response.
abbrev pub on_response : (Response → Response) → Option Response → Option Response
on_response change none = none
on_response change (some response) = some (change response)

abbrev pub status_of : Option Response → Option ℕ
status_of none = none
status_of (some response) = some response.status_code

abbrev pub header_of : Text → Option Response → Option (Option Text)
header_of name none = none
header_of name (some response) = some (get name response.headers)

-- A header that the CORS middleware may set.
unfoldable pub is_cors_header : Text → Bool
is_cors_header name =
    if text_eq name (codes "vary") then true else starts_with (codes "access-control-") name

-- The middlewares of other packages.
pub record Framework : Type 0 where
  -- `CORSMiddleware` for these origins, with or without credentials: only a preflight request is
  -- answered by it.
  pub cors : List Text → Bool → Handler → Handler
  pub cors_status :
      (origins : List Text) (credentials : Bool) (next : Handler) (request : HttpRequest)
      → request.is_preflight ≡ false
      → status_of (cors origins credentials next request) ≡ status_of (next request)
  pub cors_headers :
      (origins : List Text) (credentials : Bool) (next : Handler) (request : HttpRequest)
      (name : Text)
      → request.is_preflight ≡ false
      → is_cors_header name ≡ false
      → header_of name (cors origins credentials next request) ≡ header_of name (next request)
  -- `TrustedHostMiddleware`, and whether a host is one of the allowed ones.
  pub trusted_host : List Text → Handler → Handler
  pub is_allowed : List Text → Text → Bool
  pub trusted_host_passes :
      (hosts : List Text) (next : Handler) (request : HttpRequest)
      → is_allowed hosts request.host ≡ true
      → trusted_host hosts next request ≡ next request
  -- `SlowAPIMiddleware`
  pub slow_api : Handler → Handler

-- The settings that `create_app` reads.
pub record AppSettings : Type 0 where
  pub lists : Settings
  pub app_name : Text
  pub docs_enabled : Bool
  pub security_headers_enabled : Bool
  pub hsts_enabled : Bool
  pub max_request_bytes : ℕ
  pub cors_allow_credentials : Bool

-- The arguments of `add_middleware`.
pub data Layer : Type 0 where
  slow_api request_id : Layer
  security_headers : Bool → Layer
  max_body_size : ℕ → Layer
  trusted_host : List Text → Layer
  cors : List Text → Bool → Layer

-- `settings.trusted_host_list != ["*"]`
unfoldable pub is_any : List Text → Bool
is_any [] = false
is_any (host ∷ []) = text_eq host (codes "*")
is_any (host ∷ next ∷ hosts) = false

-- The calls of `add_middleware`, in their order.
unfoldable pub layers : AppSettings → List Layer
layers settings =
    slow_api
    ∷ ((if settings.security_headers_enabled
          then security_headers settings.hsts_enabled ∷ []
          else [])
        ++ max_body_size settings.max_request_bytes
          ∷ request_id
          ∷ ((if is_any (trusted_host_list settings.lists)
                then []
                else trusted_host (trusted_host_list settings.lists) ∷ [])
              ++ cors (cors_origin_list settings.lists) settings.cors_allow_credentials ∷ []))

-- The response of the handler of `Exception`.
unfoldable pub server_error : Response
server_error = record {
  status_code = (handle_exception unexpected).status_code;
  headers = or_else (handle_exception unexpected).headers [];
  content = (handle_exception unexpected).content;
}

module _ (framework : Framework) where
  -- A middleware around what is inside it.
  unfoldable pub wrap : Layer → Handler → Handler
  wrap slow_api next = framework.slow_api next
  wrap request_id next = λ request.
      dispatch_request_id (λ id. next (record request { state_id = some id })) request.request_id
        request.fresh_id
  wrap (security_headers hsts) next =
      λ request. on_response (add_security_headers hsts) (next request)
  wrap (max_body_size max_bytes) next =
      λ request. dispatch_body_size max_bytes (next request) request.content_length
  wrap (trusted_host hosts) next = framework.trusted_host hosts next
  wrap (cors origins credentials) next = framework.cors origins credentials next

  -- The framework runs middlewares in reverse registration order: the one that was registered first
  -- is the innermost.
  unfoldable pub build : List Layer → Handler → Handler
  build [] next = next
  build (layer ∷ rest) next = build rest (wrap layer next)

  -- The middlewares around the routes and the handlers of `AppError`, of validation errors and of
  -- `HTTPException`.
  unfoldable pub serve : AppSettings → Handler → Handler
  unfolding layers build wrap
  serve settings routes = build (layers settings) routes

  -- The application: the handler of `Exception` runs in the framework's outermost middleware.
  unfoldable pub answer : AppSettings → Handler → HttpRequest → Response
  unfolding server_error
  answer settings routes request = elim (serve settings routes request) [
    | none ↦ server_error
    | some response ↦ response
  ]

-- `docs_url`, `redoc_url` and `openapi_url`
unfoldable pub docs_urls : AppSettings → Option (Text × Text × Text)
docs_urls settings =
    if settings.docs_enabled
    then some (codes "/docs", codes "/redoc", codes "/openapi.json")
    else none

-- `root`
unfoldable pub root : AppSettings → Text → Json
root settings version = obj (
    field (codes "service") (text settings.app_name) (
      field (codes "version") (text version) (
        field (codes "docs") (if settings.docs_enabled then text (codes "/docs") else null) (
          field (codes "openapi")
            (if settings.docs_enabled then text (codes "/openapi.json") else null) end))))

abbrev status_body : Text → Json
status_body status = obj (field (codes "status") (text status) end)

-- `health`
unfoldable pub health : Response
health = record { status_code = 200; headers = []; content = status_body (codes "ok") }

-- `ready`, given whether `SELECT 1` went through
unfoldable pub ready : Bool → Response
ready reachable =
    if reachable
    then record { status_code = 200; headers = []; content = status_body (codes "ready") }
    else record { status_code = 503; headers = []; content = status_body (codes "unavailable") }
