-- ===== src/RateLimit/Laws.antt =====
-- On `client_key` of app/core/rate_limit.py.
use bookmarks_api.Prelude.{
  ℕ, ◌+◌, ◌*◌, ◌≤◌, ◌<◌, ◌≡◌, refl, ap, Bool, true, false, Option, none, some, [], ◌∷◌, ◌++◌,
}
use bookmarks_api.Text.{Text, codes, str, text_eq, starts_with, is_empty}
use bookmarks_api.Text.Decimal.{str-nonempty}
use bookmarks_api.Dict.{get}
use bookmarks_api.Json.{Json, text}
use bookmarks_api.Result.{ok}
use bookmarks_api.Security.{Jwt, TokenProvider, seconds, claims, token_type, create_access_token}
use bookmarks_api.Authentication.Laws.{decode-token}
use bookmarks_api.RateLimit.{client_key, user_key, truthy, or_ip}

truthy_text : (s : Text) → is_empty s ≡ false → truthy (text s) ≡ true
unfolding is_empty truthy
truthy_text [] h = cc
truthy_text (c ∷ s) h = refl

module _ (format : Json → Text) (jwt : Jwt) (provider : TokenProvider) (trust : Bool) where
  key_of_claims :
      (subject : ℕ) (iat exp : ℕ) (jti : Text)
      → user_key format (get (codes "sub") (claims (str subject) iat exp token_type jti))
        ≡ some (codes "user:" ++ str subject)
  unfolding user_key get text_eq codes
  key_of_claims subject iat exp jti = rw (truthy_text (str subject) (str-nonempty subject))

  -- A request with a valid token is counted for the token's user, from whatever address it comes.
  pub client_key-token :
      (now later subject : ℕ) (jti remote : Text) (forwarded : Option Text)
      → seconds now ≤ seconds later
      → seconds later < seconds (now + provider.expires_minutes * 60 * 1000000)
      → client_key format jwt provider trust later (record {
        forwarded = forwarded;
        authorization =
            some (codes "Bearer " ++ create_access_token jwt provider now jti subject none);
        remote = remote;
      })
        ≡ ok (codes "user:" ++ str subject)
  unfolding client_key codes starts_with
  client_key-token now later subject jti remote forwarded h k =
      rw (decode-token jwt provider now later jti subject h k) (
        ap
          (λ o.
            or_ip trust
              (record {
                forwarded = forwarded;
                authorization =
                    some (codes "Bearer " ++ create_access_token jwt provider now jti subject none);
                remote = remote;
              })
              (ok o))
          (key_of_claims subject (seconds now)
            (seconds (now + provider.expires_minutes * 60 * 1000000)) jti))
