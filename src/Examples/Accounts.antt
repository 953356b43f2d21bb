-- ===== src/Examples/Accounts.antt =====
-- Registration, login and tokens of one user.
use bookmarks_api.Dict.{get}
use bookmarks_api.Prelude.{List, ◌≡◌, refl, true, none, some, [], ◌∷◌, ◌++◌, arith, find}
use bookmarks_api.Text.{Text, codes, str, is_empty, is_space, lstrip, rstrip, strip, text_eq}
use bookmarks_api.Text.Casing.{ascii, ascii_lower, ascii_lower_idem}
use bookmarks_api.Result.{Exception, ok, raise}
use bookmarks_api.Models.{User, Db, empty_db}
use bookmarks_api.Repository.Users.{get_by_id, get_by_email, add, get_by_username}
use bookmarks_api.LoginGuard.{Guard, init_guard, record_success, assert_not_locked}
use bookmarks_api.Security.{TokenProvider, create_access_token}
use bookmarks_api.Authentication.Laws.{get_current_user-token}
use bookmarks_api.Authentication.Soundness.{IsAccepted, get_current_user-IsAccepted}
use bookmarks_api.RateLimit.{client_key}
use bookmarks_api.RateLimit.Laws.{client_key-token}
use bookmarks_api.Service.Auth.{token_for, register, login}
use bookmarks_api.Service.Auth.Laws.{login_same_refusal}
use bookmarks_api.Service.Auth.Registration.{login_after_register}
use bookmarks_api.Service.Auth.Guessing.{Guess, after_guesses, login_guessing}
use bookmarks_api.Examples.{counting_engine, largest}
use bookmarks_api.Examples.Libraries.{plain_jwt, plain_hasher}

-- Tokens last for two minutes.
abbrev provider : TokenProvider
provider = record { secret = codes "s"; algorithm = codes "HS256"; expires_minutes = 2 }

abbrev ada : User
ada = record {
  id = 1;
  username = codes "ada";
  email = codes "a@b";
  password_hash = codes "pw";
  created_at = 5;
}

abbrev db_of_ada : Db
db_of_ada = record empty_db { users = ada ∷ [] }

abbrev new_guard : Guard
new_guard = init_guard 3 60

abbrev token_of_ada : Text
token_of_ada = create_access_token plain_jwt provider 5 (codes "j") 1 none

ada_stored : get_by_id db_of_ada 1 ≡ some ada
unfolding get_by_id find
ada_stored = refl

get_current_user-IsAccepted_example : IsAccepted plain_jwt provider 6 db_of_ada token_of_ada ada
get_current_user-IsAccepted_example =
    get_current_user-IsAccepted plain_jwt provider 6 db_of_ada token_of_ada ada (
      get_current_user-token plain_jwt provider 5 6 (codes "j") db_of_ada ada ada_stored
        (omega arith) (omega arith))

client_key-token_example :
    client_key
      (λ j. [])
      plain_jwt
      provider
      true
      6
      (record {
        forwarded = none;
        authorization = some (codes "Bearer " ++ token_of_ada);
        remote = codes "10.0.0.1";
      })
    ≡ ok (codes "user:1")
unfolding codes str
client_key-token_example =
    client_key-token (λ j. []) plain_jwt provider true 5 6 1 (codes "j") (codes "10.0.0.1") none
      (omega arith) (omega arith)

ada_registers :
    register counting_engine ascii plain_jwt plain_hasher provider 5 0
      (codes "j")
      empty_db
      empty_db
      (codes "ada")
      (codes "A@b ")
      (codes "pw")
    ≡ (ok (ada, token_of_ada), db_of_ada)
unfolding register get_by_email find get_by_username add codes ascii_lower create_access_token strip
    str rstrip largest lstrip is_space is_empty
ada_registers = refl

login_after_register_example :
    login counting_engine ascii plain_jwt plain_hasher provider 6 2 3
      (codes "k")
      db_of_ada
      new_guard
      new_guard
      (codes " a@B")
      (codes "pw")
    ≡ (
      ok (ada, token_for counting_engine ascii plain_jwt plain_hasher provider 6 (codes "k") ada),
      record_success ascii new_guard (codes " a@B"),
    )
unfolding codes strip lstrip is_space rstrip is_empty ascii_lower assert_not_locked get init_guard
login_after_register_example =
    login_after_register counting_engine ascii plain_jwt plain_hasher provider ascii_lower_idem 5 0
      6 2 3 (codes "j") (codes "k") empty_db db_of_ada new_guard new_guard (codes "ada")
      (codes "A@b ") (codes " a@B") (codes "pw") ada token_of_ada ada_registers refl refl

login_same_refusal_example :
    login counting_engine ascii plain_jwt plain_hasher provider 6 2 3
      (codes "k")
      empty_db
      new_guard
      new_guard
      (codes "a@b")
      (codes "x")
    ≡ login counting_engine ascii plain_jwt plain_hasher provider 6 2 3
        (codes "l")
        db_of_ada
        new_guard
        new_guard
        (codes "a@b")
        (codes "y")
unfolding get_by_email find text_eq ascii_lower codes strip rstrip lstrip is_space is_empty
login_same_refusal_example =
    login_same_refusal counting_engine ascii plain_jwt plain_hasher provider 6 2 3 (codes "k")
      (codes "l") empty_db db_of_ada new_guard new_guard (codes "a@b") (codes "x") (codes "y") ada
      refl refl refl

abbrev wrong_guesses : List Guess
wrong_guesses = (2, codes "y") ∷ (3, codes "z") ∷ []

-- The guard after three wrong passwords.
abbrev guessed_guard : Guard
guessed_guard =
    after_guesses counting_engine ascii plain_jwt plain_hasher provider 6 (codes "j") db_of_ada
      (codes "a@b") new_guard ((1, codes "x") ∷ wrong_guesses)

login_guessing_example :
    (e : Exception) × (login counting_engine ascii plain_jwt plain_hasher provider 6 4 4
        (codes "j")
        db_of_ada
        guessed_guard
        guessed_guard
        (codes "a@b")
        (codes "pw")
      ≡ (raise e, guessed_guard))
unfolding get_by_email find text_eq ascii_lower codes strip rstrip lstrip is_space is_empty get
    init_guard
login_guessing_example =
    login_guessing counting_engine ascii plain_jwt plain_hasher provider 6 (codes "j") db_of_ada
      (codes "a@b") ada new_guard 1 (codes "x") wrong_guesses 4 (codes "pw") refl refl (omega arith)
      (omega arith, (omega arith, tt)) (refl, (refl, (refl, tt))) refl (omega arith)
