-- ===== src/Routers/Auth.antt =====
-- app/routers/auth.py, behind the limiter library. The body of a registration has passed the checks
-- of its fields and comes to its validator.
pub mod Tokens
use bookmarks_api.Prelude.{ℕ, Option, none, some}
use bookmarks_api.Text.{Text, codes}
use bookmarks_api.Text.Casing.{Casing}
use bookmarks_api.Models.{User, Db, Engine}
use bookmarks_api.Result.{Result, ok, raise}
use bookmarks_api.LoginGuard.{Guard}
use bookmarks_api.Schemas.{RegisterRequest, password_strength}
use bookmarks_api.Security.{Jwt, Hasher, TokenProvider}
use bookmarks_api.Service.Auth

pub record UserOut : Type 0 where
  pub id : ℕ
  pub username : Text
  pub email : Text
  pub created_at : ℕ

pub record AuthResponse : Type 0 where
  pub user : UserOut
  pub token : Text
  pub token_type : Text

pub record LoginRequest : Type 0 where
  pub email : Text
  pub password : Text

-- `AuthResponse(user=UserOut.model_validate(user), token=token)`
unfoldable pub auth_response : User → Text → AuthResponse
auth_response user token = record {
  user = record {
    id = user.id;
    username = user.username;
    email = user.email;
    created_at = user.created_at;
  };
  token = token;
  token_type = codes "bearer";
}

unfoldable pub respond : Result (User × Text) → Result AuthResponse
unfolding auth_response
respond (ok (user, token)) = ok (auth_response user token)
respond (raise e) = raise e

module _ (engine : Engine) (casing : Casing) (jwt : Jwt) (hasher : Hasher)
    (provider : TokenProvider) where
  -- `register`, with its validator
  unfoldable pub register_route :
      ℕ → ℕ → Text → Db → Db → RegisterRequest → Result AuthResponse × Db
  unfolding respond
  register_route now salt jti db db' payload = elim (password_strength casing payload) [
    | raise e ↦ (raise e, db')
    | ok checked ↦
        let out =
          Auth.register engine casing jwt hasher provider now salt jti db db' checked.username
            checked.email checked.password in
        (respond out.0, out.1)
  ]

  -- `login`
  unfoldable pub login_route :
      ℕ → ℕ → ℕ → Text → Db → Guard → Guard → LoginRequest → Result AuthResponse × Guard
  unfolding respond
  login_route now tick tick' jti db guard guard' payload =
      let out =
        Auth.login engine casing jwt hasher provider now tick tick' jti db guard guard'
          payload.email payload.password in
      (respond out.0, out.1)
