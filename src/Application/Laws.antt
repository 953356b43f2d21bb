-- ===== src/Application/Laws.antt =====
-- On `create_app` of app/main.py: what every answer passes through.
use bookmarks_api.Prelude.{ℕ, Option, none, some, if◌then◌else◌}
use bookmarks_api.Text.{Text, codes}
use bookmarks_api.Dict.{get, put}
use bookmarks_api.Middleware.{Response, security_headers, add_security_headers}
use bookmarks_api.Middleware.Laws.{or_default}
use bookmarks_api.Application.{HttpRequest, Handler, Framework, AppSettings}
use bookmarks_api.Application.Layers.{id_of, with_id}

module _ (framework : Framework) (settings : AppSettings) (routes : Handler) where
  -- What the limiter library makes of the routes.
  abbrev pub inner : HttpRequest → Option Response
  inner request = framework.slow_api routes (with_id request)

  -- The response with the request id.
  abbrev identified : HttpRequest → Response → Response
  identified request r = record r { headers = put (codes "x-request-id") (id_of request) r.headers }

  -- The response with the security headers, if those are enabled.
  abbrev hardened : Response → Response
  hardened r =
      if settings.security_headers_enabled then add_security_headers settings.hsts_enabled r else r

  -- The parts of an answer, given what the routes make of the request.
  abbrev pub own_status : Option Response → ℕ
  own_status none = 500
  own_status (some r) = r.status_code

  abbrev pub own_id : HttpRequest → Option Response → Option Text
  own_id request none = none
  own_id request (some r) = some (id_of request)

  abbrev pub own_header : Text → Option Response → Option Text
  own_header name none = none
  own_header name (some r) =
      if settings.security_headers_enabled
      then or_default (get name r.headers) (get name (security_headers settings.hsts_enabled))
      else get name r.headers

  -- The framework's outermost middleware.
  abbrev or_500 : Option ℕ → ℕ
  or_500 none = 500
  or_500 (some n) = n

  abbrev flat : Option (Option Text) → Option Text
  flat none = none
  flat (some v) = v
