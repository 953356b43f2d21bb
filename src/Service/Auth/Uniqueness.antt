-- ===== src/Service/Auth/Uniqueness.antt =====
-- On `register` of app/services/auth/service.py and the unique columns of the table of users.
use bookmarks_api.Prelude.{
  ℕ, ◌≡◌, refl, Bool, false, none, List, [], ◌∷◌, ◌++◌, ◌||◌, arith, find, Option-cases, Bool-cases,
  inl, inr,
}
use bookmarks_api.Text.{Text, strip, text_eq, text_eq_iff}
use bookmarks_api.Text.Casing.{Casing}
use bookmarks_api.Result.{Exception, Result, raise}
use bookmarks_api.Models.{User, Db, Engine}
use bookmarks_api.Repository.Users.{is_taken, get_by_email, get_by_username}
use bookmarks_api.Repository.Users
use bookmarks_api.Security.{Jwt, Hasher, TokenProvider}
use bookmarks_api.Service.Auth.{with_token, register}
use bookmarks_api.Service.Auth.Laws.{Registered, registered, refused, register-Registered}

-- `v` has the username or the email.
abbrev pub clash : Text → Text → User → Bool
clash username email v = text_eq v.username username || text_eq v.email email

-- No two users share a username, and no two share an email.
abbrev pub IsUnique : List User → Type 0
IsUnique [] = Unit
IsUnique (u ∷ us) = (find (clash u.username u.email) us ≡ none) × IsUnique us

clash_sym : (u v : User) → clash u.username u.email v ≡ false → clash v.username v.email u ≡ false
clash_sym u v h = ground (
  arith,
  text_eq_iff u.username v.username,
  text_eq_iff v.username u.username,
  text_eq_iff u.email v.email,
  text_eq_iff v.email u.email,
)

find-append_none :
    (p : User → Bool) (us : List User) (u : User)
    → find p us ≡ none
    → p u ≡ false
    → find p (us ++ u ∷ []) ≡ none
unfolding find
find-append_none p [] u h k = ground arith
find-append_none p (v ∷ us) u h k = ground (arith, find-append_none p us u)

find-none-cons :
    (p : User → Bool) (v : User) (us : List User)
    → find p (v ∷ us) ≡ none
    → (p v ≡ false) × (find p us ≡ none)
unfolding find
find-none-cons p v us h = ground arith

pub IsUnique-append :
    (us : List User) (u : User)
    → IsUnique us
    → find (clash u.username u.email) us ≡ none
    → IsUnique (us ++ u ∷ [])
unfolding find
IsUnique-append [] u d h = (refl, tt)
IsUnique-append (v ∷ us) u (fresh, d) h =
    let (apart, rest) = find-none-cons (clash u.username u.email) v us h in
    (
      find-append_none (clash v.username v.email) us u fresh (clash_sym u v apart),
      IsUnique-append us u d rest,
    )

module _ (engine : Engine) (casing : Casing) (jwt : Jwt) (hasher : Hasher)
    (provider : TokenProvider) (now salt : ℕ) (jti : Text) (db db' : Db)
    (username email password : Text) where
  pub free :
      (address : Text)
      → is_taken engine db' username address ≡ false
      → find (clash username address) db'.users ≡ none
  unfolding is_taken
  free address h = elim (Option-cases (find (clash username address) db'.users)) [
    | inl gone ↦ gone
    | inr (u, found) ↦ absurd (ground (arith, found))
  ]

  add-IsUnique :
      (address password_hash : Text)
      → IsUnique db'.users
      → IsUnique
          (with_token engine casing jwt hasher provider now jti
            (Users.add engine now db' username address password_hash)).1.users
  unfolding with_token Users.add
  add-IsUnique address password_hash d = elim (Bool-cases (is_taken engine db' username address)) [
    | inl gone ↦ rw gone d
    | inr open_ ↦ rw open_ (IsUnique-append db'.users _ d (free address open_))
  ]

  -- Registration keeps usernames and emails unique, whatever other requests have committed in
  -- between.
  pub register-IsUnique :
      IsUnique db'.users
      → IsUnique
          (register engine casing jwt hasher provider now salt jti db db' username email
            password).1.users
  unfolding register
  register-IsUnique d =
      elim (Option-cases (get_by_email engine casing db (casing.lower (strip email)))) [
        | inr (u, found) ↦ rw (found, register) d
        | inl absent ↦
            rw (absent, register)
              (elim (Option-cases (get_by_username db username)) [
                | inr (u, found) ↦ rw found d
                | inl none_yet ↦
                    rw none_yet
                      (add-IsUnique (casing.lower (strip email)) (hasher.hash salt password) d)
              ])
      ]

  raised-Registered :
      {out : Result (User × Text) × Db} (e : Exception)
      → Registered engine casing jwt hasher provider now salt jti db db' username email password out
      → out.0 ≡ raise e
      → out.1 ≡ db'
  raised-Registered e (registered u n h k absent fresh) r = cc
  raised-Registered e (refused e') r = refl

  pub register_raises :
      (e : Exception)
      → (register engine casing jwt hasher provider now salt jti db db' username email password).0
        ≡ raise e
      → (register engine casing jwt hasher provider now salt jti db db' username email password).1
        ≡ db'
  register_raises e = raised-Registered e (
      register-Registered engine casing jwt hasher provider now salt jti db db' username email
        password)
