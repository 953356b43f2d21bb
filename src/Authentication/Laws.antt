-- ===== src/Authentication/Laws.antt =====
-- On `get_current_user` of app/core/deps.py, with the tokens of app/utils/security/token.py.
use bookmarks_api.Prelude.{ℕ, ◌+◌, ◌*◌, ◌≤◌, ◌<◌, ◌≡◌, false, none, some}
use bookmarks_api.Text.{Text, codes, str, text_eq, is_empty}
use bookmarks_api.Text.Number.{whole, to_int-str}
use bookmarks_api.Dict.{get}
use bookmarks_api.Result.{ok}
use bookmarks_api.Models.{User, Db}
use bookmarks_api.Repository.Users.{get_by_id}
use bookmarks_api.Security.{
  Payload, Jwt, TokenProvider, token_type, seconds, claims, decode, create_access_token,
}
use bookmarks_api.Authentication.{decoded, subject_of, user_of, resolve_user, get_current_user}

resolve_of_subject :
    (db : Db) (payload : Payload) (user : User)
    → subject_of (get (codes "sub") payload) ≡ some (whole user.id)
    → get_by_id db user.id ≡ some user
    → resolve_user db payload ≡ ok user
unfolding resolve_user user_of
resolve_of_subject db payload user named found = rw (named, resolve_user) (rw found)

module _ (jwt : Jwt) (provider : TokenProvider) (now later : ℕ) (jti : Text) where
  pub decode-token :
      (subject : ℕ)
      → seconds now ≤ seconds later
      → seconds later < seconds (now + provider.expires_minutes * 60 * 1000000)
      → decode jwt provider later (create_access_token jwt provider now jti subject none)
        ≡ ok (
            claims
              (str subject)
              (seconds now)
              (seconds (now + provider.expires_minutes * 60 * 1000000))
              token_type
              jti)
  unfolding decode create_access_token get text_eq codes
  decode-token subject h k = rw (
      jwt.decode-encode provider.secret provider.algorithm (str subject) token_type jti
        (seconds now) (seconds (now + provider.expires_minutes * 60 * 1000000)) later h k)

  token-nonempty :
      (subject : ℕ) → is_empty (create_access_token jwt provider now jti subject none) ≡ false
  unfolding create_access_token
  token-nonempty subject = jwt.encode-nonempty _ provider.secret provider.algorithm

  resolve-claims :
      (db : Db) (user : User) (iat exp : ℕ)
      → get_by_id db user.id ≡ some user
      → resolve_user db (claims (str user.id) iat exp token_type jti) ≡ ok user
  unfolding get text_eq codes subject_of
  resolve-claims db user iat exp found =
      resolve_of_subject db (claims (str user.id) iat exp token_type jti) user (to_int-str user.id)
        found

  -- A token that was made for a user resolves to that user from the second it was issued until it
  -- expires, as long as the user is in the table.
  pub get_current_user-token :
      (db : Db) (user : User)
      → get_by_id db user.id ≡ some user
      → seconds now ≤ seconds later
      → seconds later < seconds (now + provider.expires_minutes * 60 * 1000000)
      → get_current_user jwt provider later db
          (some (create_access_token jwt provider now jti user.id none))
        ≡ ok user
  unfolding get_current_user decoded
  get_current_user-token db user found h k =
      rw (token-nonempty user.id, decode-token user.id h k, get_current_user)
        (resolve-claims db user _ _ found)
