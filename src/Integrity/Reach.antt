-- ===== src/Integrity/Reach.antt =====
-- The databases that the requests of app/services/auth/service.py and
-- app/services/bookmark/service.py can reach, in any order. What a request read of accounts and
-- bookmarks, `db`, is any database: between these reads and its commit others may commit.
use bookmarks_api.Prelude.{ℕ, Option, List}
use bookmarks_api.Text.{Text}
use bookmarks_api.Text.Casing.{Casing}
use bookmarks_api.Tags.{RawTag}
use bookmarks_api.Models.{Db, Engine, empty_db}
use bookmarks_api.Security.{Jwt, Hasher, TokenProvider}
use bookmarks_api.Service.Auth.{register}
use bookmarks_api.Service.Bookmarks.{Changes, create, update, delete}
use bookmarks_api.Integrity.{IsValid}
use bookmarks_api.Integrity.Keeps.{empty-IsValid, Writes-IsValid}
use bookmarks_api.Integrity.Requests.{register-Writes, create-Writes}
use bookmarks_api.Integrity.Mutations.{update-Writes, delete-Writes}

module _ (engine : Engine) (casing : Casing) (jwt : Jwt) (hasher : Hasher)
    (provider : TokenProvider) where
  pub data Reach : Db → Type 0 where
    start : Reach empty_db
    registers :
        {db' : Db} (now salt : ℕ) (jti : Text) (db : Db) (username email password : Text)
        → Reach db'
        → Reach
            (register engine casing jwt hasher provider now salt jti db db' username email
              password).1
    creates :
        {db : Db} (now user_id : ℕ) (url title : Text) (description : Option Text)
        (tags : List RawTag)
        → Reach db
        → Reach (create engine casing now db user_id url title description tags).1
    updates :
        {db' : Db} (now : ℕ) (db : Db) (user_id bookmark_id : ℕ) (changes : Changes)
        (if_match : Option Text)
        → Reach db'
        → Reach (update engine casing now db db' user_id bookmark_id changes if_match).1
    deletes :
        {db' : Db} (db : Db) (user_id bookmark_id : ℕ) (if_match : Option Text)
        → Reach db'
        → Reach (delete db db' user_id bookmark_id if_match).1

  -- After any sequence of registrations, creations, updates and deletions, each of them successful
  -- or not: keys are distinct, usernames, emails and tag names occur once, no pair of bookmark and
  -- tag is stored twice, every pair and every bookmark refers to rows that are there, and every
  -- version is at least one. A registration may have read the accounts, and an update or a deletion
  -- its bookmark, in any state of the database; tags are looked up in the state that is committed
  -- to.
  pub Reach-IsValid : {db : Db} → Reach db → IsValid db
  Reach-IsValid start = empty-IsValid
  Reach-IsValid (registers {db'} now salt jti db username email password r) =
      Writes-IsValid
        (register-Writes engine casing jwt hasher provider now salt jti db db' username email
          password)
        (Reach-IsValid r)
  Reach-IsValid (creates {db} now user_id url title description tags r) =
      Writes-IsValid (create-Writes engine casing now user_id url title description tags db)
        (Reach-IsValid r)
  Reach-IsValid (updates {db'} now db user_id bookmark_id changes if_match r) =
      Writes-IsValid (update-Writes engine casing now db db' user_id bookmark_id changes if_match)
        (Reach-IsValid r)
  Reach-IsValid (deletes {db'} db user_id bookmark_id if_match r) =
      Writes-IsValid (delete-Writes db db' user_id bookmark_id if_match) (Reach-IsValid r)
