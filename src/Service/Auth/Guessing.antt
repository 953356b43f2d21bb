-- ===== src/Service/Auth/Guessing.antt =====
-- On `login` of app/services/auth/service.py over the guard of app/utils/login_guard/guard.py: a run
-- of wrong passwords for one account.
use bookmarks_api.Prelude.{
  ℕ, ◌+◌, ◌≤◌, ◌<◌, ◌≡◌, ◌≢◌, refl, sym, ap, subst, ◌∙◌, false, none, some, List, [], ◌∷◌, ◌++◌,
  map, All, All-append, arith, length, length-append, length-map, append_assoc, append-nil,
}
use bookmarks_api.Text.{Text}
use bookmarks_api.Text.Casing.{Casing}
use bookmarks_api.Dict.{get}
use bookmarks_api.Result.{Exception, Result, ok, raise}
use bookmarks_api.Models.{User, Db, Engine}
use bookmarks_api.Repository.Users.{get_by_email}
use bookmarks_api.LoginGuard.{Guard, key, assert_not_locked, record_failure}
use bookmarks_api.LoginGuard.Lockout.{last_time, record_failures, lockout_iff}
use bookmarks_api.Security.{Jwt, Hasher, TokenProvider}
use bookmarks_api.Service.Auth.{authenticate, login}

-- A guess: its time and its password.
abbrev pub Guess : Type 0
Guess = ℕ × Text

abbrev pub times : List Guess → List ℕ
times = map (λ (g : Guess). g.0)

record_failures-snoc :
    (casing : Casing) (identifier : Text) (guard : Guard) (ts : List ℕ) (t : ℕ)
    → record_failure casing (record_failures casing identifier guard ts) identifier t
      ≡ record_failures casing identifier guard (ts ++ t ∷ [])
record_failures-snoc casing identifier guard [] t = refl
record_failures-snoc casing identifier guard (u ∷ ts) t =
    record_failures-snoc casing identifier (record_failure casing guard identifier u) ts t

-- A call of the guard that does not pass raises.
refusal_of : (r : Result (Unit {0})) → r ≢ ok tt → (e : Exception) × (r ≡ raise e)
refusal_of (ok tt) h = absurd (h refl)
refusal_of (raise e) h = (e, refl)

passes_of : (r : Result (Unit {0})) → (r ≢ ok tt → ⊥) → r ≡ ok tt
passes_of (ok tt) h = refl
passes_of (raise e) h = absurd (h (λ same. cc))

module _ (engine : Engine) (casing : Casing) (jwt : Jwt) (hasher : Hasher)
    (provider : TokenProvider) (now : ℕ) (jti : Text) (db : Db) (email : Text) where
  -- One login after the other, nothing in between, each at one time of the clock.
  abbrev pub after_guesses : Guard → List Guess → Guard
  after_guesses guard [] = guard
  after_guesses guard ((t, password) ∷ guesses) =
      after_guesses
        (login engine casing jwt hasher provider now t t jti db guard guard email password).1
        guesses

  -- The password is not that of the account.
  abbrev pub IsWrong : User → Guess → Type 0
  IsWrong user g = hasher.verify g.1 user.password_hash ≡ false

  wrong_guess :
      (user : User) (guard : Guard) (t : ℕ) (password : Text)
      → get_by_email engine casing db email ≡ some user
      → hasher.verify password user.password_hash ≡ false
      → assert_not_locked casing guard email t ≡ ok tt
      → (login engine casing jwt hasher provider now t t jti db guard guard email password).1
        ≡ record_failure casing guard email t
  unfolding login authenticate
  wrong_guess user guard t password found wrong open_ =
      rw (open_, found, login, authenticate) (rw wrong refl)

  refused_guess :
      (guard : Guard) (t : ℕ) (password : Text) (e : Exception)
      → assert_not_locked casing guard email t ≡ raise e
      → login engine casing jwt hasher provider now t t jti db guard guard email password
        ≡ (raise e, guard)
  unfolding login
  refused_guess guard t password e locked = rw (locked, login) refl

  module _ (user : User) (found : get_by_email engine casing db email ≡ some user) (guard : Guard)
      (none_yet : get (key casing email) guard.state ≡ none) (first : ℕ) (start : 0 < first) where
    -- Fewer failures than the guard allows leave the account open.
    still_open :
        (later : List ℕ) (t : ℕ)
        → All (λ u. u ≤ first + guard.lockout) later
        → 1 + length later < guard.max_failures
        → assert_not_locked casing (record_failures casing email guard (first ∷ later)) email t
          ≡ ok tt
    still_open later t within few = passes_of _ (λ refused.
        below ((lockout_iff casing email guard first later t none_yet start within).0 refused).0)
      where
        below : guard.max_failures ≤ 1 + length later → ⊥
        below h = omega arith

    guesses_counted :
        (later : List ℕ) (guesses : List Guess)
        → All (λ u. u ≤ first + guard.lockout) later
        → All (λ u. u ≤ first + guard.lockout) (times guesses)
        → All (IsWrong user) guesses
        → 1 + length later + length guesses ≤ guard.max_failures
        → after_guesses (record_failures casing email guard (first ∷ later)) guesses
          ≡ record_failures casing email guard (first ∷ (later ++ times guesses))
    guesses_counted later [] l w ws few =
        ap (λ ts. record_failures casing email guard (first ∷ ts)) (sym (append-nil later))
    guesses_counted later ((t, password) ∷ guesses) l (within, w) (wrong, ws) few =
        ap (λ g. after_guesses g guesses)
          (wrong_guess user _ t password found wrong (still_open later t l (omega arith))
            ∙ record_failures-snoc casing email guard (first ∷ later) t)
        ∙ guesses_counted (later ++ t ∷ []) guesses
            (All-append (λ u. u ≤ first + guard.lockout) later (t ∷ []) l (within, tt)) w ws
            (omega (arith, length-append later (t ∷ [])))
        ∙ ap (λ ts. record_failures casing email guard (first ∷ ts))
            (append_assoc later (t ∷ []) (times guesses))

  -- Guessing is bounded: as many wrong passwords in a row as the guard allows, none later than the
  -- window that the first one opens, lock the account. Until the lockout has passed since the last
  -- of them a login with any password, the right one too, raises and leaves the guard as it is.
  pub login_guessing :
      (user : User) (guard : Guard) (first : ℕ) (password : Text) (guesses : List Guess) (tick : ℕ)
      (next : Text)
      → get_by_email engine casing db email ≡ some user
      → get (key casing email) guard.state ≡ none
      → 0 < first
      → All (λ u. u ≤ first + guard.lockout) (times guesses)
      → All (IsWrong user) ((first, password) ∷ guesses)
      → 1 + length guesses ≡ guard.max_failures
      → tick < last_time first (times guesses) + guard.lockout
      → (e : Exception) × (login engine casing jwt hasher provider now tick tick jti db
            (after_guesses guard ((first, password) ∷ guesses))
            (after_guesses guard ((first, password) ∷ guesses))
            email
            next
          ≡ (raise e, after_guesses guard ((first, password) ∷ guesses)))
  unfolding assert_not_locked
  login_guessing user guard first password guesses tick next found none_yet start within (wrong, ws)
        count soon =
      let opened : assert_not_locked casing guard email first ≡ ok tt = rw none_yet refl in
      let reached : after_guesses guard ((first, password) ∷ guesses)
          ≡ record_failures casing email guard (first ∷ times guesses) =
        ap (λ g. after_guesses g guesses) (wrong_guess user guard first password found wrong opened)
        ∙ guesses_counted user found guard none_yet first start [] guesses tt within ws
            (omega arith) in
      let (e, locked) =
        refusal_of
          (assert_not_locked casing (record_failures casing email guard (first ∷ times guesses))
            email tick)
          ((lockout_iff casing email guard first (times guesses) tick none_yet start within).1
            (omega (arith, length-map (λ (g : Guess). g.0) guesses), soon)) in
      subst
        (λ g.
          (e : Exception) × (login engine casing jwt hasher provider now tick tick jti db g g email
              next
            ≡ (raise e, g)))
        (sym reached) (e, refused_guess _ tick next e locked)
