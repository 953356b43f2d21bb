-- ===== src/RateLimit.antt =====
-- app/core/rate_limit.py: the key under which a request is counted, and the answer of a refusal. The
-- counters are those of the limiter library.
pub mod Laws
use bookmarks_api.Prelude.{
  ℕ, zero, suc, Bool, true, false, Option, none, some, List, [], ◌∷◌, ◌++◌, drop, if◌then◌else◌,
}
use bookmarks_api.Text.{Text, codes, is_empty, strip, split, starts_with}
use bookmarks_api.Dict.{get}
use bookmarks_api.Json.{Json, Items, Fields, null, num, text, flag, arr, obj, nil, end, field}
use bookmarks_api.Result.{Result, ok, raise, expired_signature_error, invalid_token_error}
use bookmarks_api.Security.{Payload, Jwt, TokenProvider, decode}
use bookmarks_api.Middleware.{Response}

-- What a key is made from: the headers `x-forwarded-for` and `authorization`, and the remote address.
pub record Request : Type 0 where
  pub forwarded : Option Text
  pub authorization : Option Text
  pub remote : Text

unfoldable pub first_part : List Text → Text
first_part [] = []
first_part (part ∷ parts) = part

-- `_client_ip`
unfoldable pub client_ip : Bool → Request → Text
unfolding first_part
client_ip false request = request.remote
client_ip true request = elim request.forwarded [
  | none ↦ request.remote
  | some forwarded ↦
      if is_empty forwarded then request.remote else strip (first_part (split b',' forwarded))
]

-- The truth of a JSON value.
unfoldable pub truthy : Json → Bool
truthy null = false
truthy (num zero) = false
truthy (num (suc n)) = true
truthy (text []) = false
truthy (text (c ∷ s)) = true
truthy (flag b) = b
truthy (arr nil) = false
truthy (arr _) = true
truthy (obj end) = false
truthy (obj _) = true

-- `f"{sub}"`, which writes a text as it is; `format` stands for `str` of the other values.
unfoldable pub formatted : (Json → Text) → Json → Text
formatted format (text s) = s
formatted format j = format j

-- `f"user:{sub}"` for a claim that is there and true
unfoldable pub user_key : (Json → Text) → Option Json → Option Text
unfolding truthy formatted
user_key format none = none
user_key format (some sub) =
    if truthy sub then some (codes "user:" ++ formatted format sub) else none

-- The `try` block: `none` where the claim is missing or the token is invalid or expired.
unfoldable pub key_of_payload : (Json → Text) → Result Payload → Result (Option Text)
unfolding user_key
key_of_payload format (ok payload) = ok (user_key format (get (codes "sub") payload))
key_of_payload format (raise expired_signature_error) = ok none
key_of_payload format (raise invalid_token_error) = ok none
key_of_payload format (raise e) = raise e

-- `request.headers.get("authorization", "")`
unfoldable pub authorization_of : Request → Text
authorization_of request = elim request.authorization [ none ↦ [] | some a ↦ a ]

unfoldable pub or_ip : Bool → Request → Result (Option Text) → Result Text
unfolding client_ip
or_ip trust request (raise e) = raise e
or_ip trust request (ok none) = ok (codes "ip:" ++ client_ip trust request)
or_ip trust request (ok (some key)) = ok key

-- `client_key`
unfoldable pub client_key : (Json → Text) → Jwt → TokenProvider → Bool → ℕ → Request → Result Text
unfolding key_of_payload authorization_of or_ip
client_key format jwt provider trust now request =
    let auth = authorization_of request in
    if starts_with (codes "Bearer ") auth
    then or_ip trust request (key_of_payload format (decode jwt provider now (drop 7 auth)))
    else or_ip trust request (ok none)

-- `rate_limit_exceeded_handler`, for a limit as `str` writes it.
unfoldable pub rate_limit_exceeded : Text → Response
rate_limit_exceeded limit = record {
  status_code = 429;
  headers = [];
  content = obj (
      field (codes "error")
        (obj (
          field (codes "code") (text (codes "RATE_LIMITED")) (
            field (codes "message")
              (text (codes "Rate limit exceeded. Please slow down and try again shortly."))
              (field (codes "details") (obj (field (codes "limit") (text limit) end)) end))))
        end);
}
