-- ===== src/Authentication/Soundness.antt =====
-- On `get_current_user` of app/core/deps.py: whom it lets in.
use bookmarks_api.Prelude.{
  ℕ, ◌≡◌, refl, ap, subst, ◌∙◌, true, some, arith, ◌==◌, if◌then◌else◌, Option-cases, Bool-cases,
  inl, inr,
}
use bookmarks_api.Text.{Text, codes, is_empty}
use bookmarks_api.Text.Number.{IntValue, whole, below_zero}
use bookmarks_api.Dict.{get}
use bookmarks_api.Result.{
  Exception, Result, ok, raise, app, value_error, stale_version_error, integrity_error,
  expired_signature_error, invalid_token_error, ◌>>=◌,
}
use bookmarks_api.Models.{User, Db}
use bookmarks_api.Repository.Users.{get_by_id}
use bookmarks_api.Repository.Bookmarks.Rows.{find_holds}
use bookmarks_api.Security.{Payload, Jwt, TokenProvider, has_type, decode}
use bookmarks_api.Authentication.{decoded, subject_of, user_of, resolve_user, get_current_user}

-- The token is accepted, is an access token, names the user's key, and the user is in the table.
pub record IsAccepted (jwt : Jwt) (provider : TokenProvider) (now : ℕ) (db : Db) (token : Text)
    (user : User) : Type 0 where
  pub payload : Payload
  pub accepted : jwt.decode token provider.secret provider.algorithm now ≡ ok payload
  pub typed : has_type (get (codes "type") payload) ≡ true
  pub named : subject_of (get (codes "sub") payload) ≡ some (whole user.id)
  pub stored : get_by_id db user.id ≡ some user

id_of_found :
    (db : Db) (user_id : ℕ) (user : User) → get_by_id db user_id ≡ some user → user_id ≡ user.id
unfolding get_by_id
id_of_found db user_id user h =
    let found = find_holds (λ (u : User). u.id == user_id) db.users h in ground arith

user_of_found :
    (db : Db) (subject : IntValue) (user : User)
    → user_of db subject ≡ some user
    → (subject ≡ whole user.id) × (get_by_id db user.id ≡ some user)
unfolding user_of
user_of_found db (whole n) user h =
    let same = id_of_found db n user h in
    (ap whole same, subst (λ i. get_by_id db i ≡ some user) same h)
user_of_found db (below_zero n) user h = cc

subject_found :
    (db : Db) (payload : Payload) (user : User) (subject : IntValue)
    → subject_of (get (codes "sub") payload) ≡ some subject
    → resolve_user db payload ≡ ok user
    → (subject_of (get (codes "sub") payload) ≡ some (whole user.id))
      × (get_by_id db user.id ≡ some user)
unfolding resolve_user
subject_found db payload user subject named h = elim (Option-cases (user_of db subject)) [
  | inl absent ↦ absurd (refused_user (rw (named, absent, resolve_user) at h))
  | inr (u, found) ↦
      let run : ok u ≡ ok user = rw (named, found, resolve_user) at h in
      let (same, stored) = user_of_found db subject user (found ∙ ap some (ok_user run)) in
      (named ∙ ap some same, stored)
]
  where
    refused_user : {e : Exception} → raise e ≡ ok user → ⊥
    refused_user r = cc

    ok_user : {u : User} → ok u ≡ ok user → u ≡ user
    ok_user r = cc

resolve_sound :
    (db : Db) (payload : Payload) (user : User)
    → resolve_user db payload ≡ ok user
    → (subject_of (get (codes "sub") payload) ≡ some (whole user.id))
      × (get_by_id db user.id ≡ some user)
unfolding resolve_user
resolve_sound db payload user h = elim (Option-cases (subject_of (get (codes "sub") payload))) [
  | inr (subject, named) ↦ subject_found db payload user subject named h
  | inl unnamed ↦ absurd (refused_user (rw (unnamed, resolve_user) at h))
]
  where
    refused_user : {e : Exception} → raise e ≡ ok user → ⊥
    refused_user r = cc

decoded_sound :
    (db : Db) (r : Result Payload) (user : User)
    → (decoded r >>= resolve_user db) ≡ ok user
    → (payload : Payload) × (r ≡ ok payload) × (resolve_user db payload ≡ ok user)
unfolding decoded
decoded_sound db (ok payload) user h = (payload, refl, h)
decoded_sound db (raise (app e)) user h = cc
decoded_sound db (raise (value_error e)) user h = cc
decoded_sound db (raise stale_version_error) user h = cc
decoded_sound db (raise integrity_error) user h = cc
decoded_sound db (raise expired_signature_error) user h = cc
decoded_sound db (raise invalid_token_error) user h = cc

typed_sound :
    (r : Result Payload) (payload : Payload)
    → (r >>= λ p. if has_type (get (codes "type") p) then ok p else raise invalid_token_error)
      ≡ ok payload
    → (r ≡ ok payload) × (has_type (get (codes "type") payload) ≡ true)
typed_sound (raise e) payload h = cc
typed_sound (ok p) payload h = elim (Bool-cases (has_type (get (codes "type") p))) [
  | inl typed ↦
      let same : ok p ≡ ok payload = rw typed at h in
      (same, subst (λ q. has_type (get (codes "type") q) ≡ true) (payload_of same) typed)
  | inr untyped ↦ absurd (refused (rw untyped at h))
]
  where
    payload_of : ok p ≡ ok payload → p ≡ payload
    payload_of r = cc

    refused : raise invalid_token_error ≡ ok payload → ⊥
    refused r = cc

-- Whoever is let in with a token is a user of the table whose key the token names, and the token is
-- an access token that the library accepts now, for the secret and the algorithm of the settings.
pub get_current_user-IsAccepted :
    (jwt : Jwt) (provider : TokenProvider) (now : ℕ) (db : Db) (token : Text) (user : User)
    → get_current_user jwt provider now db (some token) ≡ ok user
    → IsAccepted jwt provider now db token user
unfolding get_current_user decode
get_current_user-IsAccepted jwt provider now db token user h = elim (Bool-cases (is_empty token)) [
  | inl blank ↦ absurd (refused (rw (blank, get_current_user) at h))
  | inr given ↦
      let run : (decoded (decode jwt provider now token) >>= resolve_user db) ≡ ok user =
        rw (given, get_current_user) at h in
      let (payload, whole_run, resolved) =
        decoded_sound db (decode jwt provider now token) user run in
      let (accepted, typed) =
        typed_sound (jwt.decode token provider.secret provider.algorithm now) payload whole_run in
      let (named, stored) = resolve_sound db payload user resolved in
      record {
        payload = payload;
        accepted = accepted;
        typed = typed;
        named = named;
        stored = stored;
      }
]
  where
    refused : {e : Exception} → raise e ≡ ok user → ⊥
    refused r = cc
