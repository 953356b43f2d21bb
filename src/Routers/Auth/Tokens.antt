-- ===== src/Routers/Auth/Tokens.antt =====
-- On `register` of app/routers/auth.py, and the token of its response.
use bookmarks_api.Prelude.{
  ℕ, ◌+◌, ◌*◌, ◌≤◌, ◌<◌, ◌≡◌, refl, sym, ap, subst, ◌∙◌, true, false, some, List, [], ◌∷◌, ◌++◌,
  map, arith, find, ◌==◌,
}
use bookmarks_api.Text.{Text, codes, strip}
use bookmarks_api.Text.Casing.{Casing}
use bookmarks_api.Models.{User, Db, Engine, has_id}
use bookmarks_api.Result.{Exception, Result, ok, raise}
use bookmarks_api.Repository.Users.{get_by_id}
use bookmarks_api.Schemas.{RegisterRequest, password_strength}
use bookmarks_api.Security.{Jwt, Hasher, TokenProvider, seconds}
use bookmarks_api.Authentication.{get_current_user}
use bookmarks_api.Authentication.Laws.{get_current_user-token}
use bookmarks_api.Service.Auth
use bookmarks_api.Service.Auth.Laws.{Registered, registered, refused, register-Registered}
use bookmarks_api.Routers.Auth.{AuthResponse, auth_response, respond, register_route}

find-appended :
    (rows : List User) (u : User)
    → has_id u.id (map (λ (x : User). x.id) rows) ≡ false
    → find (λ x. x.id == u.id) (rows ++ u ∷ []) ≡ some u
unfolding find has_id
find-appended [] u h = ground arith
find-appended (r ∷ rows) u h = ground (arith, find-appended rows u)

no_ok : {e : Exception} {r : AuthResponse} → raise e ≡ ok r → ⊥
no_ok h = cc

checked_same :
    (casing : Casing) (payload checked : RegisterRequest)
    → password_strength casing payload ≡ ok checked
    → checked ≡ payload
unfolding password_strength
checked_same casing payload checked h = ground arith

module _ (engine : Engine) (casing : Casing) (jwt : Jwt) (hasher : Hasher)
    (provider : TokenProvider) (now salt later : ℕ) (jti : Text) (db db' : Db) where
  -- The account of a request and its response, and its token while it lasts.
  pub record SignedUp (username email password : Text) (response : AuthResponse) (after : Db)
      : Type 0 where
    pub user : User
    pub named : (user.username ≡ username) × (user.email ≡ casing.lower (strip email))
    pub hashed : hasher.verify password user.password_hash ≡ true
    pub shown_id : response.user.id ≡ user.id
    pub shown_username : response.user.username ≡ user.username
    pub shown_email : response.user.email ≡ user.email
    pub shown_time : response.user.created_at ≡ user.created_at
    pub bearer : response.token_type ≡ codes "bearer"
    pub added : after ≡ record db' { users = db'.users ++ user ∷ [] }
    pub accepted : get_current_user jwt provider later after (some response.token) ≡ ok user

  signed_up :
      {username email password : Text} {out : Result (User × Text) × Db}
      → seconds now ≤ seconds later
      → seconds later < seconds (now + provider.expires_minutes * 60 * 1000000)
      → Registered engine casing jwt hasher provider now salt jti db db' username email password out
      → (response : AuthResponse) → respond out.0 ≡ ok response
      → SignedUp username email password response out.1
  unfolding respond auth_response get_by_id
  signed_up {username} {email} {password} from until (registered user n e h absent fresh) response
        r =
      subst
        (λ p. SignedUp username email password p (record db' { users = db'.users ++ user ∷ [] }))
        (ok_response r)
        (record {
          user = user;
          named = (n, e);
          hashed =
              subst (λ s. hasher.verify password s ≡ true) (sym h)
                (hasher.verify-hash salt password);
          shown_id = refl;
          shown_username = refl;
          shown_email = refl;
          shown_time = refl;
          bearer = refl;
          added = refl;
          accepted =
              get_current_user-token jwt provider now later jti
                (record db' { users = db'.users ++ user ∷ [] }) user
                (find-appended db'.users user fresh) from until;
        })
    where
      ok_response : {p q : AuthResponse} → ok p ≡ ok q → p ≡ q
      ok_response h = cc
  signed_up from until (refused e) response r = cc

  -- A registration over HTTP that succeeds has passed the check of the password and adds one account,
  -- with the username and the email of the request, the latter trimmed and in lower case, and a hash
  -- that the password matches. The user of the response has the account's key, username, email and
  -- time, and its token, of the type `bearer`, resolves to this account at any time from the second
  -- of the registration until it expires.
  pub register_route-SignedUp :
      (payload : RegisterRequest) (response : AuthResponse) (after : Db)
      → register_route engine casing jwt hasher provider now salt jti db db' payload
        ≡ (ok response, after)
      → seconds now ≤ seconds later
      → seconds later < seconds (now + provider.expires_minutes * 60 * 1000000)
      → (password_strength casing payload ≡ ok payload)
        × SignedUp payload.username payload.email payload.password response after
  unfolding register_route
  register_route-SignedUp payload response after h from until =
      from_check (password_strength casing payload) refl
    where
      from_check :
          (r : Result RegisterRequest)
          → password_strength casing payload ≡ r
          → (password_strength casing payload ≡ ok payload)
            × SignedUp payload.username payload.email payload.password response after
      from_check (raise e) c =
          let failed : (raise e, db') ≡ (ok response, after) = rw (c, register_route) at h in
          absurd (no_ok (ap (λ (o : Result AuthResponse × Db). o.0) failed))
      from_check (ok checked) c =
          let out =
            Auth.register engine casing jwt hasher provider now salt jti db db' checked.username
              checked.email checked.password in
          let run : (respond out.0, out.1) ≡ (ok response, after) = rw (c, register_route) at h in
          (
            c ∙ ap ok (checked_same casing payload checked c),
            subst (λ (q : RegisterRequest). SignedUp q.username q.email q.password response after)
                (checked_same casing payload checked c)
                (subst (SignedUp checked.username checked.email checked.password response)
                  (ap (λ o. o.1) run)
                  (signed_up from until
                    (register-Registered engine casing jwt hasher provider now salt jti db db'
                      checked.username checked.email checked.password)
                    response (ap (λ o. o.0) run))),
          )
