-- ===== src/Service/Auth/Laws.antt =====
-- On `register` and `login` of app/services/auth/service.py: their outcomes.
use bookmarks_api.Prelude.{
  ℕ, ◌≡◌, refl, ap, true, false, none, some, [], ◌∷◌, ◌++◌, map, false, Option-cases, Bool-cases,
  inl, inr,
}
use bookmarks_api.Text.{Text, strip}
use bookmarks_api.Text.Casing.{Casing}
use bookmarks_api.Result.{Exception, Result, ok, raise}
use bookmarks_api.Models.{User, Db, Engine, has_id}
use bookmarks_api.Repository.Users.{get_by_email, get_by_username, is_taken}
use bookmarks_api.Repository.Users
use bookmarks_api.LoginGuard.{Guard, assert_not_locked, record_success}
use bookmarks_api.Security.{Jwt, Hasher, TokenProvider}
use bookmarks_api.Service.Auth.{token_for, with_token, register, unless_locked, authenticate, login}

module _ (engine : Engine) (casing : Casing) (jwt : Jwt) (hasher : Hasher)
    (provider : TokenProvider) where
  same_refusal :
      (now tick : ℕ) (jti jti' : Text) (db db' : Db) (guard : Guard)
      (email password password' : Text) (user : User)
      → get_by_email engine casing db email ≡ none
      → get_by_email engine casing db' email ≡ some user
      → hasher.verify password' user.password_hash ≡ false
      → authenticate engine casing jwt hasher provider now tick jti db guard email password
        ≡ authenticate engine casing jwt hasher provider now tick jti' db' guard email password'
  unfolding authenticate
  same_refusal now tick jti jti' db db' guard email password password' user absent found wrong =
      rw (absent, authenticate) (rw (found, authenticate) (rw wrong refl))

  -- A login with an email that nobody has and one with a wrong password are not told apart: for the
  -- same email, times and guard they give the same answer and leave the same guard.
  pub login_same_refusal :
      (now tick tick' : ℕ) (jti jti' : Text) (db db' : Db) (guard guard' : Guard)
      (email password password' : Text) (user : User)
      → get_by_email engine casing db email ≡ none
      → get_by_email engine casing db' email ≡ some user
      → hasher.verify password' user.password_hash ≡ false
      → login engine casing jwt hasher provider now tick tick' jti db guard guard' email password
        ≡ login engine casing jwt hasher provider now tick tick' jti' db' guard guard' email
            password'
  unfolding login
  login_same_refusal now tick tick' jti jti' db db' guard guard' email password password' user
        absent found wrong =
      ap
        (unless_locked engine casing jwt hasher provider guard'
          (assert_not_locked casing guard email tick))
        (same_refusal now tick' jti jti' db db' guard' email password password' user absent found
          wrong)

  -- A login with the right password of an account that is not locked.
  pub login_right :
      (now tick tick' : ℕ) (jti : Text) (db : Db) (guard guard' : Guard) (email password : Text)
      (user : User)
      → assert_not_locked casing guard email tick ≡ ok tt
      → get_by_email engine casing db email ≡ some user
      → hasher.verify password user.password_hash ≡ true
      → login engine casing jwt hasher provider now tick tick' jti db guard guard' email password
        ≡ (
          ok (user, token_for engine casing jwt hasher provider now jti user),
          record_success casing guard' email,
        )
  unfolding login
  login_right now tick tick' jti db guard guard' email password user open_ found right =
      rw (open_, found, authenticate) (rw right refl)

  -- What a registration that succeeds has found and written.
  pub data Registered (now salt : ℕ) (jti : Text) (db db' : Db) (username email password : Text)
      : Result (User × Text) × Db → Type 0 where
    registered :
        (user : User)
        → user.username ≡ username
        → user.email ≡ casing.lower (strip email)
        → user.password_hash ≡ hasher.hash salt password
        → get_by_email engine casing db (casing.lower (strip email)) ≡ none
        → has_id user.id (map (λ (u : User). u.id) db'.users) ≡ false
        → Registered now salt jti db db' username email password (
          ok (user, token_for engine casing jwt hasher provider now jti user),
          record db' { users = db'.users ++ user ∷ [] },
        )
    refused :
        (e : Exception) → Registered now salt jti db db' username email password (raise e, db')

  add-Registered :
      (now salt : ℕ) (jti : Text) (db db' : Db) (username email password : Text)
      → get_by_email engine casing db (casing.lower (strip email)) ≡ none
      → Registered now salt jti db db' username email password (
          with_token engine casing jwt hasher provider now jti (
            Users.add engine now db' username
              (casing.lower (strip email))
              (hasher.hash salt password)))
  unfolding with_token Users.add
  add-Registered now salt jti db db' username email password absent =
      elim (Bool-cases (is_taken engine db' username (casing.lower (strip email)))) [
        | inl gone ↦ rw gone (refused _)
        | inr free ↦ rw free (registered _ refl refl refl absent (engine.new_id-fresh _))
      ]

  pub register-Registered :
      (now salt : ℕ) (jti : Text) (db db' : Db) (username email password : Text)
      → Registered now salt jti db db' username email password
          (register engine casing jwt hasher provider now salt jti db db' username email password)
  unfolding register
  register-Registered now salt jti db db' username email password =
      elim (Option-cases (get_by_email engine casing db (casing.lower (strip email)))) [
        | inr (u, found) ↦ rw (found, register) (refused _)
        | inl absent ↦
            rw (absent, register)
              (elim (Option-cases (get_by_username db username)) [
                | inr (u, found) ↦ rw found (refused _)
                | inl free ↦
                    rw free (add-Registered now salt jti db db' username email password absent)
              ])
      ]
