-- ===== src/Repository/Users.antt =====
-- app/repositories/user/repository.py
use bookmarks_api.Prelude.{
  ℕ, Bool, true, false, Option, none, some, [], ◌∷◌, ◌++◌, map, find, ◌==◌, ◌||◌, if◌then◌else◌,
}
use bookmarks_api.Text.{Text, text_eq, strip}
use bookmarks_api.Text.Casing.{Casing}
use bookmarks_api.Models.{User, Db, Engine}
use bookmarks_api.Result.{Result, ok, raise, integrity_error}

-- `UserRepository.get_by_id`
unfoldable pub get_by_id : Db → ℕ → Option User
get_by_id db user_id = find (λ u. u.id == user_id) db.users

-- `UserRepository.get_by_username`
unfoldable pub get_by_username : Db → Text → Option User
get_by_username db username = find (λ u. text_eq u.username username) db.users

module _ (engine : Engine) where
  -- `UserRepository.get_by_email`
  unfoldable pub get_by_email : Casing → Db → Text → Option User
  get_by_email casing db email =
      find (λ u. text_eq (engine.sql_lower u.email) (casing.lower (strip email))) db.users

  -- The unique indexes on `username` and `email`.
  unfoldable pub is_taken : Db → Text → Text → Bool
  is_taken db username email =
      elim (find (λ u. text_eq u.username username || text_eq u.email email) db.users) [
        | none ↦ false
        | some _ ↦ true
      ]

  -- `UserRepository.add`: the engine gives the key and, as `now`, the creation time.
  unfoldable pub add : ℕ → Db → Text → Text → Text → Result User × Db
  unfolding is_taken
  add now db username email password_hash =
      let user : User = record {
        id = engine.new_id (map (λ (u : User). u.id) db.users);
        username = username;
        email = email;
        password_hash = password_hash;
        created_at = now;
      } in
      if is_taken db username email
      then (raise integrity_error, db)
      else (ok user, record db { users = db.users ++ user ∷ [] })
