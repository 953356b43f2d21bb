-- ===== src/Middleware.antt =====
-- app/core/middleware.py: security headers, request ids, and the limit on the declared body size.
-- A header's name is written in lower case, as the framework compares it. What `call_next` raises
-- passes a middleware: then there is no response, `none`.
pub mod Laws
use bookmarks_api.Prelude.{
  ℕ, Bool, true, false, Option, none, some, List, [], ◌∷◌, ◌++◌, ltb, if◌then◌else◌,
}
use bookmarks_api.Text.{Text, codes, is_empty, str}
use bookmarks_api.Text.Number.{IntValue, whole, below_zero, to_int}
use bookmarks_api.Dict.{Dict, get, put}
use bookmarks_api.Json.{Json, num, text, obj, end, field}

pub record Response : Type 0 where
  pub status_code : ℕ
  pub headers : Dict Text
  pub content : Json

-- `headers.setdefault(name, value)`
unfoldable pub setdefault : Text → Text → Dict Text → Dict Text
setdefault name value headers = elim (get name headers) [
  | some _ ↦ headers
  | none ↦ put name value headers
]

unfoldable pub setdefaults : Dict Text → Dict Text → Dict Text
unfolding setdefault
setdefaults [] headers = headers
setdefaults ((name, value) ∷ defaults) headers =
    setdefaults defaults (setdefault name value headers)

-- The defaults of `SecurityHeadersMiddleware`, the last one only with `hsts`.
unfoldable pub security_headers : Bool → Dict Text
security_headers hsts =
    (codes "x-content-type-options", codes "nosniff")
    ∷ (codes "x-frame-options", codes "DENY")
    ∷ (codes "referrer-policy", codes "no-referrer")
    ∷ (codes "cross-origin-opener-policy", codes "same-origin")
    ∷ (codes "content-security-policy", codes "default-src 'none'; frame-ancestors 'none'")
    ∷ (if hsts
        then (codes "strict-transport-security", codes "max-age=31536000; includeSubDomains") ∷ []
        else [])

-- `SecurityHeadersMiddleware.dispatch`, on what `call_next` returned.
unfoldable pub add_security_headers : Bool → Response → Response
add_security_headers hsts response = record response {
  headers = setdefaults (security_headers hsts) response.headers;
}

-- `RequestIDMiddleware.dispatch`: the request id, given the inbound header and a fresh id.
unfoldable pub request_id_for : Option Text → Text → Text
request_id_for none fresh = fresh
request_id_for (some inbound) fresh = if is_empty inbound then fresh else inbound

unfoldable pub dispatch_request_id : (Text → Option Response) → Option Text → Text → Option Response
unfolding request_id_for
dispatch_request_id call_next inbound fresh = elim (call_next (request_id_for inbound fresh)) [
  | none ↦ none
  | some response ↦ some (record response {
    headers = put (codes "x-request-id") (request_id_for inbound fresh) response.headers;
  })
]

-- `_too_large`
unfoldable pub too_large : ℕ → Response
too_large max_bytes = record {
  status_code = 413;
  headers = [];
  content = obj (
      field (codes "error")
        (obj (
          field (codes "code") (text (codes "PAYLOAD_TOO_LARGE")) (
            field (codes "message")
              (text (codes "Request body exceeds the " ++ str max_bytes ++ codes "-byte limit."))
              (field (codes "details") (obj (field (codes "limit") (num max_bytes) end)) end))))
        end);
}

-- `int(content_length) > self._max`, and false for a `ValueError`
unfoldable pub exceeds : ℕ → Option IntValue → Bool
exceeds max_bytes (some (whole n)) = ltb max_bytes n
exceeds max_bytes (some (below_zero n)) = false
exceeds max_bytes none = false

-- `MaxBodySizeMiddleware.dispatch`
unfoldable pub dispatch_body_size : ℕ → Option Response → Option Text → Option Response
unfolding exceeds
dispatch_body_size max_bytes next none = next
dispatch_body_size max_bytes next (some content_length) =
    if exceeds max_bytes (to_int content_length) then some (too_large max_bytes) else next
