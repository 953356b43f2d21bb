-- ===== src/Service/Auth.antt =====
-- app/services/auth/service.py. Registration reads the database once, `db`, and inserts into what the
-- database is then, `db'`. A login reads the guard's clock and its state twice, and the time of day
-- once. The comparison of a dummy hash, which only takes time, is left out.
pub mod Laws
pub mod Registration
pub mod Uniqueness
pub mod Guessing
use bookmarks_api.Prelude.{ℕ, Bool, true, false, Option, none, some, if◌then◌else◌}
use bookmarks_api.Text.{Text, codes, strip}
use bookmarks_api.Text.Casing.{Casing}
use bookmarks_api.Json.{text, end, field}
use bookmarks_api.Errors.{AppError, make_error, auth_error, conflict_error}
use bookmarks_api.Result.{Result, ok, raise, app}
use bookmarks_api.Models.{User, Db, Engine}
use bookmarks_api.Repository.Users.{get_by_email, get_by_username}
use bookmarks_api.Repository.Users
use bookmarks_api.LoginGuard.{Guard, assert_not_locked, record_failure, record_success}
use bookmarks_api.Security.{Jwt, Hasher, TokenProvider, create_access_token}

-- The 409 for a field that is taken.
unfoldable pub taken : Text → Text → AppError
taken message name =
    make_error conflict_error message
      (some (
        field (codes "field") (text name) (field (codes "constraint") (text (codes "unique")) end)))
      none

abbrev pub bad_credentials : AppError
bad_credentials = make_error auth_error (codes "Invalid email or password.") none none

module _ (engine : Engine) (casing : Casing) (jwt : Jwt) (hasher : Hasher)
    (provider : TokenProvider) where
  -- The token that a success answers with.
  abbrev pub token_for : ℕ → Text → User → Text
  token_for now jti user = create_access_token jwt provider now jti user.id none

  unfoldable pub with_token : ℕ → Text → Result User × Db → Result (User × Text) × Db
  with_token now jti (raise e, db) = (raise e, db)
  with_token now jti (ok user, db) = (ok (user, token_for now jti user), db)

  -- `register`; `salt` and `jti` are the random parts of the hash and of the token.
  unfoldable pub register : ℕ → ℕ → Text → Db → Db → Text → Text → Text → Result (User × Text) × Db
  unfolding taken with_token
  register now salt jti db db' username email password =
      let address = casing.lower (strip email) in
      elim (get_by_email engine casing db address) [
        | some _ ↦ (
          raise (app (taken (codes "A user with this email already exists.") (codes "email"))),
          db',
        )
        | none ↦ elim (get_by_username db username) [
          | some _ ↦ (
            raise (app (taken (codes "This username is already taken.") (codes "username"))),
            db',
          )
          | none ↦
              with_token now jti
                (Users.add engine now db' username address (hasher.hash salt password))
        ]
      ]

  -- `login` of an account that is not locked, on the guard and the database.
  unfoldable pub authenticate :
      ℕ → ℕ → Text → Db → Guard → Text → Text → Result (User × Text) × Guard
  authenticate now tick jti db guard email password = elim (get_by_email engine casing db email) [
    | none ↦ (raise (app bad_credentials), record_failure casing guard email tick)
    | some user ↦
        if hasher.verify password user.password_hash
        then (ok (user, token_for now jti user), record_success casing guard email)
        else (raise (app bad_credentials), record_failure casing guard email tick)
  ]

  -- `assert_not_locked` raises, or the rest is run.
  abbrev pub unless_locked :
      Guard → Result (Unit {0}) → Result (User × Text) × Guard → Result (User × Text) × Guard
  unless_locked guard (raise e) out = (raise e, guard)
  unless_locked guard (ok _) out = out

  -- `login`, which checks the guard at `tick`, and records in what the guard is at `tick'`.
  unfoldable pub login :
      ℕ → ℕ → ℕ → Text → Db → Guard → Guard → Text → Text → Result (User × Text) × Guard
  unfolding authenticate
  login now tick tick' jti db guard guard' email password =
      unless_locked guard' (assert_not_locked casing guard email tick)
        (authenticate now tick' jti db guard' email password)
