-- ===== src/Authentication.antt =====
-- app/core/deps.py: `get_current_user`, which resolves the user of a bearer token.
pub mod Laws
pub mod Soundness
use bookmarks_api.Prelude.{ℕ, Bool, true, false, Option, none, some, if◌then◌else◌}
use bookmarks_api.Text.{Text, codes, is_empty}
use bookmarks_api.Text.Number.{IntValue, whole, below_zero, to_int}
use bookmarks_api.Dict.{get}
use bookmarks_api.Json.{Json, num, text, flag}
use bookmarks_api.Errors.{AppError, make_error, auth_error}
use bookmarks_api.Result.{
  Result, ok, raise, app, expired_signature_error, invalid_token_error, ◌>>=◌,
}
use bookmarks_api.Models.{User, Db}
use bookmarks_api.Repository.Users.{get_by_id}
use bookmarks_api.Security.{Payload, Jwt, TokenProvider, decode}

abbrev pub refuse {ℓ} : {A : Type ℓ} → Text → Result A
refuse message = raise (app (make_error auth_error message none none))

-- `except jwt.ExpiredSignatureError`, then `except jwt.InvalidTokenError`
unfoldable pub decoded : Result Payload → Result Payload
decoded (ok payload) = ok payload
decoded (raise expired_signature_error) = refuse (codes "Access token has expired.")
decoded (raise invalid_token_error) = refuse (codes "Invalid authentication token.")
decoded (raise e) = raise e

-- `int(payload.get("sub"))`, `none` for a `TypeError` or a `ValueError`
unfoldable pub subject_of : Option Json → Option IntValue
subject_of (some (text s)) = to_int s
subject_of (some (num n)) = some (whole n)
subject_of (some (flag true)) = some (whole 1)
subject_of (some (flag false)) = some (whole 0)
subject_of _ = none

-- No key of the table is below zero.
unfoldable pub user_of : Db → IntValue → Option User
user_of db (whole user_id) = get_by_id db user_id
user_of db (below_zero n) = none

unfoldable pub resolve_user : Db → Payload → Result User
unfolding subject_of user_of
resolve_user db payload = elim (subject_of (get (codes "sub") payload)) [
  | none ↦ refuse (codes "Invalid authentication token.")
  | some user_id ↦ elim (user_of db user_id) [
    | none ↦ refuse (codes "User account no longer exists.")
    | some user ↦ ok user
  ]
]

-- `get_current_user`; the credentials are the token behind `Bearer`, if there is one.
unfoldable pub get_current_user : Jwt → TokenProvider → ℕ → Db → Option Text → Result User
unfolding resolve_user decoded
get_current_user jwt provider now db none =
    refuse (codes "Authentication credentials were not provided.")
get_current_user jwt provider now db (some credentials) =
    if is_empty credentials
    then refuse (codes "Authentication credentials were not provided.")
    else (decoded (decode jwt provider now credentials) >>= resolve_user db)
