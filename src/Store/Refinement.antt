-- ===== src/Store/Refinement.antt =====
-- On the requests of app/services/auth/service.py and app/services/bookmark/service.py as moves on
-- the rows by key.
use bookmarks_api.Prelude.{
  ℕ, ◌+◌, ◌≡◌, refl, sym, ap, subst, ◌∙◌, fun_ext, Option, none, some, List, arith, find,
}
use bookmarks_api.Text.{Text}
use bookmarks_api.Text.Casing.{Casing}
use bookmarks_api.Models.{Bookmark, Db, Engine}
use bookmarks_api.Result.{Result, ok, raise}
use bookmarks_api.Repository.Bookmarks.{is_current, update_row}
use bookmarks_api.Repository.Bookmarks.Rows.{find_holds}
use bookmarks_api.Security.{Jwt, Hasher, TokenProvider}
use bookmarks_api.Service.Auth.Laws.{Registered, registered, refused, register-Registered}
use bookmarks_api.Service.Bookmarks.{Changes, load, delete, tags_of}
use bookmarks_api.Service.Bookmarks.Guards.{get_owned-keys, load_owned}
use bookmarks_api.Service.Bookmarks.Updates.{Updated, done}
use bookmarks_api.Service.Bookmarks.Updates
use bookmarks_api.Service.Bookmarks.Locking.{HasKeys, Run, stopped, ran, update-Run}
use bookmarks_api.Service.Bookmarks.Creation.{Inserted, inserted, rolled_back, create-Inserted}
use bookmarks_api.Service.Bookmarks.Deletion.{Removal, removed, commit-Removal}
use bookmarks_api.Service.Bookmarks.Deletion
use bookmarks_api.Store.{Store, view_rows, view, put, Move, IsKept, Request}
use bookmarks_api.Store
use bookmarks_api.Store.Rows.{
  view_rows-absent, view_rows-append, view_rows-current, view_rows-update_rows, view_rows-kept,
}

module _ (user_id : ℕ) where
  moved : {s t u : Store} → ((i : ℕ) → u i ≡ t i) → Move user_id s t → Move user_id s u
  moved {s} same m = subst (Move user_id s) (sym (fun_ext same)) m

  viewed :
      (after : Db) {rows : List Bookmark}
      → after.bookmarks ≡ rows
      → (i : ℕ) → view after i ≡ view_rows rows i
  viewed after h i = ap (λ rs. view_rows rs i) h

  Registered-Move :
      {engine : Engine} {casing : Casing} {jwt : Jwt} {hasher : Hasher} {provider : TokenProvider}
      {now salt : ℕ} {jti : Text} {db db' : Db} {username email password : Text}
      {out : Result _ × Db}
      → Registered engine casing jwt hasher provider now salt jti db db' username email password out
      → Move user_id (view db') (view out.1)
  Registered-Move (registered user n e p absent fresh) = Store.stays
  Registered-Move (refused e) = Store.stays

  Inserted-Move :
      {db : Db} {out : Result Bookmark × Db}
      → Inserted user_id db db out
      → Move user_id (view db) (view out.1)
  Inserted-Move {db} (inserted b after owner version fresh rows) =
      moved (λ i. viewed after rows i ∙ view_rows-append db.bookmarks b i fresh)
        (Store.creates b (view_rows-absent db.bookmarks b.id fresh) owner version)
  Inserted-Move (rolled_back e) = Store.stays

  -- The row that a commit found, with what the request has read of it.
  Found : Db → Bookmark → Bookmark → Type 0
  Found db' loaded row =
      (row.id ≡ loaded.id)
      × (row.version ≡ loaded.version)
      × (row.user_id ≡ user_id)
      × (view db' row.id ≡ some row)

  load-Found :
      (db db' : Db) (bookmark_id : ℕ) (if_match : Option Text) {loaded row : Bookmark}
      → HasKeys db'
      → IsKept user_id db db'
      → load db user_id bookmark_id if_match ≡ ok loaded
      → find (is_current loaded) db'.bookmarks ≡ some row
      → Found db' loaded row
  unfolding Found
  load-Found db db' bookmark_id if_match {loaded} {row} d k l found =
      let owned = load_owned db user_id bookmark_id if_match loaded l in
      let key = (get_owned-keys db user_id bookmark_id loaded owned).0 in
      let (same, stored) = view_rows-current loaded db'.bookmarks row d found in
      let current = find_holds (is_current loaded) db'.bookmarks found in
      (
        same,
        ground arith,
        k bookmark_id loaded row owned (subst (λ i. view db' i ≡ some row) key stored),
        subst (λ i. view db' i ≡ some row) (sym same) stored,
      )

  Updated-Move :
      {now : ℕ} {loaded assigned b : Bookmark} {db' after : Db}
      → HasKeys db'
      → (u : Updated now loaded assigned b db' after) → Found db' loaded u.row
      → Move user_id (view db') (view after)
  unfolding Found update_row
  Updated-Move {now} {loaded} {assigned} {b} {db'} {after} d u (same, version, owner, stored) =
      moved
        (λ i.
          viewed after u.rows i
          ∙ view_rows-update_rows now loaded assigned db'.bookmarks u.row i d u.found
          ∙ ap (λ j. put (view db') j (some (update_row now loaded assigned u.row)) i) (sym same))
        (Store.replaces u.row (update_row now loaded assigned u.row) stored owner refl refl refl
          (ap (λ n. n + 1) (sym version)))

  Run-Move :
      {engine : Engine} {casing : Casing} {now : ℕ} {db db' : Db} {bookmark_id : ℕ}
      {changes : Changes} {if_match : Option Text} {out : Result Bookmark × Db}
      → HasKeys db'
      → IsKept user_id db db'
      → Run engine casing now db db' user_id bookmark_id changes if_match out
      → Move user_id (view db') (view out.1)
  Run-Move d k (stopped e h) = Store.stays
  Run-Move d k (ran loaded l (done u)) = Updated-Move d u (load-Found _ _ _ _ d k l u.found)
  Run-Move d k (ran loaded l (Updates.refused e)) = Store.stays

  Removal-Move :
      (db db' : Db) (bookmark_id : ℕ) (if_match : Option Text) {loaded : Bookmark}
      {out : Result (Unit {0}) × Db}
      → HasKeys db'
      → IsKept user_id db db'
      → load db user_id bookmark_id if_match ≡ ok loaded
      → Removal loaded db' out
      → Move user_id (view db') (view out.1)
  unfolding Found
  Removal-Move db db' bookmark_id if_match {loaded} d k l (removed row after found rows pairs) =
      let (same, version, owner, stored) = load-Found db db' bookmark_id if_match d k l found in
      moved
        (λ i.
          viewed after rows i
          ∙ view_rows-kept loaded db'.bookmarks row i d found
          ∙ ap (λ j. put (view db') j none i) (sym same))
        (Store.removes row stored owner)
  Removal-Move db db' bookmark_id if_match d k l (Deletion.refused e) = Store.stays

  delete-Move :
      (db db' : Db) (bookmark_id : ℕ) (if_match : Option Text)
      → HasKeys db'
      → IsKept user_id db db'
      → Move user_id (view db') (view (delete db db' user_id bookmark_id if_match).1)
  unfolding delete
  delete-Move db db' bookmark_id if_match d k =
      from_load (load db user_id bookmark_id if_match) refl
    where
      from_load :
          (r : Result Bookmark)
          → load db user_id bookmark_id if_match ≡ r
          → Move user_id (view db') (view (delete db db' user_id bookmark_id if_match).1)
      from_load (raise e) h = rw (h, delete) Store.stays
      from_load (ok loaded) h =
          rw (h, delete)
            (Removal-Move db db' bookmark_id if_match d k h
              (commit-Removal db' loaded (tags_of db loaded) user_id bookmark_id))

module _ (engine : Engine) (casing : Casing) (jwt : Jwt) (hasher : Hasher)
    (provider : TokenProvider) (user_id : ℕ) where
  -- Where keys are distinct, each request of a user, successful or not, changes the bookmarks in one
  -- of these ways and in no other: not at all; one new row of the user under a new key, at version
  -- 1; one row of the user replaced under its key by one of the same owner and creation time, a
  -- version higher; one row of the user removed. Other requests may have committed since it read,
  -- as long as the keys that it read have not passed to other users.
  pub Request-Move :
      (db' after : Db)
      → HasKeys db'
      → Request engine casing jwt hasher provider user_id db' after
      → Move user_id (view db') (view after)
  Request-Move db' after d (Store.registers now salt jti db username email password) =
      Registered-Move user_id (
        register-Registered engine casing jwt hasher provider now salt jti db db' username email
          password)
  Request-Move db' after d (Store.creates now url title description tags) =
      Inserted-Move user_id
        (create-Inserted engine casing now user_id url title description tags db')
  Request-Move db' after d (Store.updates now db bookmark_id changes if_match k) =
      Run-Move user_id d k
        (update-Run engine casing now db db' user_id bookmark_id changes if_match)
  Request-Move db' after d (Store.deletes db bookmark_id if_match k) =
      delete-Move user_id db db' bookmark_id if_match d k
