-- ===== src/Service/Auth/Registration.antt =====
-- On `register` and `login` of app/services/auth/service.py, one after the other.
use bookmarks_api.Prelude.{
  ℕ, ◌≡◌, sym, ap, subst, ◌∙◌, Bool, true, none, some, List, [], ◌∷◌, ◌++◌, arith, find,
}
use bookmarks_api.Text.{Text, strip, text_eq, text_eq_refl}
use bookmarks_api.Text.Casing.{Casing}
use bookmarks_api.Tags.Laws.{clean_idem}
use bookmarks_api.Result.{Result, ok}
use bookmarks_api.Models.{User, Db, Engine}
use bookmarks_api.Repository.Users.{get_by_email}
use bookmarks_api.LoginGuard.{Guard, assert_not_locked, record_success}
use bookmarks_api.Security.{Jwt, Hasher, TokenProvider}
use bookmarks_api.Service.Auth.{token_for, register, login}
use bookmarks_api.Service.Auth.Laws.{
  Registered, registered, refused, register-Registered, login_right,
}

find-append {ℓ} :
    {A : Type ℓ} (p : A → Bool) (xs : List A) (x : A)
    → find p xs ≡ none
    → p x ≡ true
    → find p (xs ++ x ∷ []) ≡ some x
unfolding find
find-append p [] x h k = ground arith
find-append p (y ∷ ys) x h k = ground (arith, find-append p ys x)

ok_parts : {p q : User × Text} → ok p ≡ ok q → p ≡ q
ok_parts h = cc

module _ (engine : Engine) (casing : Casing) (jwt : Jwt) (hasher : Hasher)
    (provider : TokenProvider)
    (lower_stable : (s : Text) → engine.sql_lower (casing.lower s) ≡ casing.lower s) where
  is_found :
      (user : User) (email : Text)
      → user.email ≡ casing.lower (strip email)
      → text_eq (engine.sql_lower user.email) (casing.lower (strip email)) ≡ true
  is_found user email h =
      subst (λ s. text_eq s (casing.lower (strip email)) ≡ true)
        (sym (ap engine.sql_lower h ∙ lower_stable (strip email)))
        (text_eq_refl (casing.lower (strip email)))

  found-append :
      (db : Db) (user : User) (email : Text)
      → user.email ≡ casing.lower (strip email)
      → get_by_email engine casing db (casing.lower (strip email)) ≡ none
      → get_by_email engine casing (record db { users = db.users ++ user ∷ [] }) email ≡ some user
  unfolding get_by_email
  found-append db user email h absent =
      find-append (λ u. text_eq (engine.sql_lower u.email) (casing.lower (strip email))) db.users
        user
        (ap (λ s. find (λ u. text_eq (engine.sql_lower u.email) s) db.users)
            (sym (clean_idem casing email))
          ∙ absent)
        (is_found user email h)

  Registered-found :
      {now salt : ℕ} {jti : Text} {db : Db} {username email password : Text}
      {out : Result (User × Text) × Db}
      → Registered engine casing jwt hasher provider now salt jti db db username email password out
      → (user : User) (token : Text) → out.0 ≡ ok (user, token)
      → (get_by_email engine casing out.1 email ≡ some user)
        × (hasher.verify password user.password_hash ≡ true)
  Registered-found {salt = salt} {db = db} {email = email} {password = password}
        (registered u n e h absent fresh) user token same =
      (
        found-append db u email e absent ∙ ap some (ap (λ (p : User × Text). p.0) (ok_parts same)),
        ap (hasher.verify password) (
              sym
                (ap (λ (x : User). x.password_hash) (ap (λ (p : User × Text). p.0) (ok_parts same)))
              ∙ h)
            ∙ hasher.verify-hash salt password,
      )
  Registered-found (refused e) user token same = cc

  by_email :
      (db : Db) (email email' : Text)
      → casing.lower (strip email') ≡ casing.lower (strip email)
      → get_by_email engine casing db email' ≡ get_by_email engine casing db email
  unfolding get_by_email
  by_email db email email' same =
      ap (λ s. find (λ u. text_eq (engine.sql_lower u.email) s) db.users) same

  -- After a registration that succeeds, a login with the same password, and with the email in any
  -- case and with any white space around it, succeeds as the same user, unless the account is locked.
  pub login_after_register :
      (now salt later tick tick' : ℕ) (jti jti' : Text) (db after : Db) (guard guard' : Guard)
      (username email email' password : Text) (user : User) (token : Text)
      → register engine casing jwt hasher provider now salt jti db db username email password
        ≡ (ok (user, token), after)
      → casing.lower (strip email') ≡ casing.lower (strip email)
      → assert_not_locked casing guard email' tick ≡ ok tt
      → login engine casing jwt hasher provider later tick tick' jti' after guard guard' email'
          password
        ≡ (
          ok (user, token_for engine casing jwt hasher provider later jti' user),
          record_success casing guard' email',
        )
  login_after_register now salt later tick tick' jti jti' db after guard guard' username email
        email' password user token h same open_ =
      let (found, right) =
        Registered-found
          (register-Registered engine casing jwt hasher provider now salt jti db db username email
            password)
          user token (ap (λ o. o.0) h) in
      login_right engine casing jwt hasher provider later tick tick' jti' after guard guard' email'
        password user open_
        (by_email after email email' same
          ∙ subst (λ d. get_by_email engine casing d email ≡ some user) (ap (λ o. o.1) h) found)
        right
