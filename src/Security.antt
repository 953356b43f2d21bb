-- ===== src/Security.antt =====
-- app/utils/security: the access tokens and the password hasher. The libraries that sign tokens and
-- hash passwords are parameters, with the documented behaviour that the program relies on.
use bookmarks_api.Prelude.{
  ℕ, zero, suc, ◌+◌, ◌*◌, ◌/◌, ◌≤◌, ◌<◌, ◌≡◌, Bool, true, false, if◌then◌else◌, Option, none, some,
  [], ◌∷◌,
}
use bookmarks_api.Text.{Text, codes, str, text_eq, is_empty}
use bookmarks_api.Dict.{Dict, get}
use bookmarks_api.Json.{Json, num, text}
use bookmarks_api.Result.{Result, ok, raise, invalid_token_error, ◌>>=◌}

-- A payload: the claims of a token.
abbrev pub Payload : Type 0
Payload = Dict Json

abbrev pub seconds : ℕ → ℕ
seconds microseconds = microseconds / 1000000

-- The payload of the program's tokens.
abbrev pub claims : Text → ℕ → ℕ → Text → Text → Payload
claims sub iat exp type jti =
    (codes "sub", text sub)
    ∷ (codes "iat", num iat)
    ∷ (codes "exp", num exp)
    ∷ (codes "type", text type)
    ∷ (codes "jti", text jti)
    ∷ []

-- `jwt.encode` and `jwt.decode` for one algorithm, with the required claims `exp`, `iat` and `sub`.
pub record Jwt : Type 0 where
  pub encode : Payload → Text → Text → Text
  -- A token holds two dots.
  pub encode-nonempty :
      (payload : Payload) (secret algorithm : Text)
      → is_empty (encode payload secret algorithm) ≡ false
  -- The token, the secret, the algorithm and the time in microseconds.
  pub decode : Text → Text → Text → ℕ → Result Payload
  -- A token signed with this secret is accepted from its `iat` until its `exp`.
  pub decode-encode :
      (secret algorithm sub type jti : Text) (iat exp now : ℕ)
      → iat ≤ seconds now
      → seconds now < exp
      → decode (encode (claims sub iat exp type jti) secret algorithm) secret algorithm now
        ≡ ok (claims sub iat exp type jti)

-- `IPasswordHasher`: a hash takes the random salt as an argument.
pub record Hasher : Type 0 where
  pub hash : ℕ → Text → Text
  pub verify : Text → Text → Bool
  pub verify-hash : (salt : ℕ) (password : Text) → verify password (hash salt password) ≡ true

-- The fields that `JwtTokenProvider.__init__` sets.
pub record TokenProvider : Type 0 where
  pub secret : Text
  pub algorithm : Text
  pub expires_minutes : ℕ

-- `TOKEN_TYPE`
abbrev pub token_type : Text
token_type = codes "access"

-- `expires_minutes or self._expires_minutes`
unfoldable pub minutes_or : Option ℕ → ℕ → ℕ
minutes_or none default = default
minutes_or (some zero) default = default
minutes_or (some (suc n)) default = suc n

unfoldable pub payload_for : TokenProvider → ℕ → Text → Text → Option ℕ → Payload
unfolding minutes_or
payload_for provider now jti subject expires_minutes =
    claims subject (seconds now)
      (seconds (now + minutes_or expires_minutes provider.expires_minutes * 60 * 1000000))
      token_type jti

-- Whether the claim `type` is the one of access tokens.
unfoldable pub has_type : Option Json → Bool
has_type (some (text t)) = text_eq t token_type
has_type _ = false

module _ (jwt : Jwt) where
  -- `create_access_token` of an integer subject; `jti` is the random token id.
  unfoldable pub create_access_token : TokenProvider → ℕ → Text → ℕ → Option ℕ → Text
  unfolding payload_for
  create_access_token provider now jti subject expires_minutes =
      jwt.encode (payload_for provider now jti (str subject) expires_minutes) provider.secret
        provider.algorithm

  -- `decode`
  unfoldable pub decode : TokenProvider → ℕ → Text → Result Payload
  unfolding has_type
  decode provider now token = do
    payload ← jwt.decode token provider.secret provider.algorithm now
    if has_type (get (codes "type") payload) then ok payload else raise invalid_token_error
