-- ===== src/Application/Layers.antt =====
-- On `create_app` of app/main.py: the middlewares of the program inside those of the framework.
use bookmarks_api.Prelude.{
  ℕ, ◌≡◌, refl, ap, ◌∙◌, Bool, true, false, Option, none, some, List, ◌⊎◌, arith, if◌then◌else◌,
  Bool-cases, inl, inr,
}
use bookmarks_api.Text.{Text, codes, text_eq, starts_with}
use bookmarks_api.Text.Number.{to_int}
use bookmarks_api.Config.{trusted_host_list, cors_origin_list}
use bookmarks_api.Middleware.{
  Response, add_security_headers, request_id_for, dispatch_request_id, exceeds, too_large,
  dispatch_body_size,
}
use bookmarks_api.Application.{
  HttpRequest, Handler, on_response, status_of, header_of, is_cors_header, Framework, AppSettings,
  is_any, layers, wrap, build, serve,
}

-- Whether the declared size of the body is above the limit.
abbrev pub is_over : ℕ → Option Text → Bool
is_over max_bytes none = false
is_over max_bytes (some content_length) = exceeds max_bytes (to_int content_length)

pub body_size_lem :
    (max_bytes : ℕ) (next : Option Response) (content_length : Option Text)
    → dispatch_body_size max_bytes next content_length
      ≡ (if is_over max_bytes content_length then some (too_large max_bytes) else next)
unfolding dispatch_body_size
body_size_lem max_bytes next none = refl
body_size_lem max_bytes next (some content_length) = refl

pub own : is_cors_header (codes "x-request-id") ≡ false
unfolding is_cors_header text_eq codes starts_with
own = refl

-- The request as the routes see it.
abbrev pub id_of : HttpRequest → Text
id_of request = request_id_for request.request_id request.fresh_id

abbrev pub with_id : HttpRequest → HttpRequest
with_id request = record request { state_id = some (id_of request) }

module _ (framework : Framework) (settings : AppSettings) (routes : Handler) where
  abbrev hosts : List Text
  hosts = trusted_host_list settings.lists

  unfoldable pub secured : Handler
  secured request =
      if settings.security_headers_enabled
      then on_response (add_security_headers settings.hsts_enabled)
          (framework.slow_api routes request)
      else framework.slow_api routes request

  -- What is inside the middlewares of the framework.
  unfoldable pub inside : Handler
  unfolding secured
  inside request =
      dispatch_request_id
        (λ id.
          dispatch_body_size settings.max_request_bytes
            (secured (record request { state_id = some id })) request.content_length)
        request.request_id request.fresh_id

  hosted : Handler
  unfolding inside
  hosted = if is_any hosts then inside else framework.trusted_host hosts inside

  serve-hosted :
      serve framework settings routes
      ≡ framework.cors (cors_origin_list settings.lists) settings.cors_allow_credentials hosted
  unfolding serve layers build wrap hosted inside secured
  serve-hosted = elim (Bool-cases settings.security_headers_enabled) [
    | inl secure ↦ elim (Bool-cases (is_any hosts)) [
      | inl any ↦ rw (secure, any) refl
      | inr some_hosts ↦ rw (secure, some_hosts) refl
    ]
    | inr plain ↦ elim (Bool-cases (is_any hosts)) [
      | inl any ↦ rw (plain, any) refl
      | inr some_hosts ↦ rw (plain, some_hosts) refl
    ]
  ]

  -- The host is trusted, and the request is no preflight, which the framework answers itself.
  pub record IsAdmitted (request : HttpRequest) : Type 0 where
    pub trusted : (is_any hosts ≡ true) ⊎ (framework.is_allowed hosts request.host ≡ true)
    pub no_preflight : request.is_preflight ≡ false

  hosted-inside : (request : HttpRequest) → IsAdmitted request → hosted request ≡ inside request
  unfolding hosted
  hosted-inside request a = elim (Bool-cases (is_any hosts)) [
    | inl any ↦ rw any refl
    | inr named ↦ elim a.trusted [
      | inl any ↦ absurd (ground arith)
      | inr allowed ↦ rw named (framework.trusted_host_passes hosts inside request allowed)
    ]
  ]

  pub served_status :
      (request : HttpRequest)
      → IsAdmitted request
      → status_of (serve framework settings routes request) ≡ status_of (inside request)
  served_status request a =
      ap (λ (h : Handler). status_of (h request)) serve-hosted
      ∙ framework.cors_status (cors_origin_list settings.lists) settings.cors_allow_credentials
          hosted request a.no_preflight
      ∙ ap status_of (hosted-inside request a)

  pub served_headers :
      (request : HttpRequest) (name : Text)
      → IsAdmitted request
      → is_cors_header name ≡ false
      → header_of name (serve framework settings routes request) ≡ header_of name (inside request)
  served_headers request name a own =
      ap (λ (h : Handler). header_of name (h request)) serve-hosted
      ∙ framework.cors_headers (cors_origin_list settings.lists) settings.cors_allow_credentials
          hosted request name a.no_preflight own
      ∙ ap (header_of name) (hosted-inside request a)
