-- ===== src/Service/Bookmarks/Versions.antt =====
-- On `update` of app/services/bookmark/service.py: the versions that it gives out.
use mathlib.Core.Option.{some-injective}
use bookmarks_api.Prelude.{
  ℕ, ◌+◌, ◌≡◌, ◌≢◌, refl, sym, ap, ap₂, subst, ◌∙◌, true, false, Option, none, some, arith, find,
  Bool-cases, inl, inr,
}
use bookmarks_api.Text.{Text, is_empty, strip}
use bookmarks_api.Text.Casing.{Casing}
use bookmarks_api.Etag.{make_etag, matches}
use bookmarks_api.Etag.Laws.{matches-make_etag, strip-make_etag}
use bookmarks_api.Models.{Bookmark, Db, Engine}
use bookmarks_api.Result.{Exception, Result, ok, raise, app}
use bookmarks_api.Repository.Queries.{get_owned}
use bookmarks_api.Repository.Bookmarks.{is_current, update_row, update_rows}
use bookmarks_api.Repository.Bookmarks.Rows.{
  ids, owned, IsDistinct, find_holds, ids-update_rows, find-update_rows_other,
  find-update_rows_self, find-update_rows_stale, current_of_owned,
}
use bookmarks_api.Service.Bookmarks.{Changes, assign, conflict, update, load}
use bookmarks_api.Service.Bookmarks.Guards.{get_owned-keys, load_owned, load_mismatch}
use bookmarks_api.Service.Bookmarks.Updates.{Updated, done, refused}
use bookmarks_api.Service.Bookmarks.Locking.{
  HasKeys, Run, stopped, ran, update-Run, update-Committed,
}

-- What an update that changes row `bookmark_id` from `old` to `b` leaves in the database.
pub record Replaced (bookmark_id : ℕ) (old b : Bookmark) (db' after : Db) : Type 0 where
  pub key : b.id ≡ bookmark_id
  pub version : b.version ≡ old.version + 1
  pub stored : get_owned after b.user_id bookmark_id ≡ some b
  pub others :
      (user_id i : ℕ) → i ≢ bookmark_id → get_owned after user_id i ≡ get_owned db' user_id i
  pub users : after.users ≡ db'.users
  pub keys : HasKeys after

current_id : (old row : Bookmark) → is_current old row ≡ true → row.id ≡ old.id
current_id old row h = ground arith

Updated-Replaced :
    (now bookmark_id : ℕ) (old assigned b : Bookmark) (db' after : Db)
    → HasKeys db'
    → old.id ≡ bookmark_id
    → Updated now old assigned b db' after
    → Replaced bookmark_id old b db' after
unfolding get_owned update_row
Updated-Replaced now bookmark_id old assigned b db' after d same u = record {
  key =
      ap (λ (x : Bookmark). x.id) u.result
      ∙ current_id old u.row (find_holds (is_current old) db'.bookmarks u.found)
      ∙ same;
  version = ap (λ (x : Bookmark). x.version) u.result;
  stored =
      ap₂ (λ uid rows. find (owned uid bookmark_id) rows)
        (ap (λ (x : Bookmark). x.user_id) u.result) u.rows
      ∙ ap (λ i. find (owned u.row.user_id i) (update_rows now old assigned db'.bookmarks))
          (sym same)
      ∙ find-update_rows_self now old assigned db'.bookmarks u.row d u.found
      ∙ ap some (sym u.result);
  others = λ user_id i ne.
      ap (find (owned user_id i)) u.rows
      ∙ find-update_rows_other now old assigned user_id i db'.bookmarks (λ e. ne (e ∙ same));
  users = u.users;
  keys = subst IsDistinct (sym (ap ids u.rows ∙ ids-update_rows now old assigned db'.bookmarks)) d;
}

pub make_etag_given : (version : ℕ) → is_empty (strip (make_etag version)) ≡ false
unfolding is_empty make_etag
make_etag_given version = rw (strip-make_etag version)

matches_ne : (m n : ℕ) → m ≢ n → matches (make_etag m) n ≡ false
matches_ne m n ne = elim (Bool-cases (matches (make_etag m) n)) [
  | inl same ↦ absurd (ne ((matches-make_etag m n).0 same))
  | inr differs ↦ differs
]

next_ne : (n : ℕ) → n + 1 ≡ n → ⊥
next_ne n h = omega arith

module _ (engine : Engine) (casing : Casing) (user_id bookmark_id : ℕ) where
  pub update-Replaced :
      (now : ℕ) (db db' : Db) (changes : Changes) (if_match : Option Text) (b : Bookmark)
      (after : Db)
      → HasKeys db'
      → update engine casing now db db' user_id bookmark_id changes if_match ≡ (ok b, after)
      → (old : Bookmark) × (get_owned db user_id bookmark_id ≡ some old)
        × Replaced bookmark_id old b db' after
  update-Replaced now db db' changes if_match b after d h =
      let c =
        update-Committed engine casing now db db' user_id bookmark_id changes if_match b after h in
      (
        c.old,
        c.loaded,
        Updated-Replaced now bookmark_id c.old (assign changes c.old) b db' after d
            (get_owned-keys db user_id bookmark_id c.old c.loaded).0 c.updated,
      )

  -- Behind the guards, `after` holds no row at the version that was loaded from `db`.
  unfoldable pub IsStale : Db → Db → Type 0
  IsStale db after =
      (old : Bookmark)
      → get_owned db user_id bookmark_id ≡ some old
      → find (is_current old) after.bookmarks ≡ none

  first-IsStale :
      (now : ℕ) (db db' : Db) (changes : Changes) (if_match : Option Text) (b : Bookmark)
      (after : Db)
      → HasKeys db'
      → update engine casing now db db' user_id bookmark_id changes if_match ≡ (ok b, after)
      → IsStale db after
  unfolding IsStale
  first-IsStale now db db' changes if_match b after d h old found =
      let c =
        update-Committed engine casing now db db' user_id bookmark_id changes if_match b after h in
      subst (λ o. find (is_current o) after.bookmarks ≡ none)
        (some-injective c.old old (sym c.loaded ∙ found))
        (ap (find (is_current c.old)) c.updated.rows
          ∙ find-update_rows_stale now c.old (assign changes c.old) db'.bookmarks d)

  pub second-raises :
      (now : ℕ) (db after : Db) (changes : Changes) (if_match : Option Text)
      → IsStale db after
      → {out : Result Bookmark × Db}
      → Run engine casing now db after user_id bookmark_id changes if_match out
      → (e : Exception) × (out ≡ (raise e, after))
  unfolding IsStale
  second-raises now db after changes if_match stale (stopped e h) = (e, refl)
  second-raises now db after changes if_match stale (ran loaded h (done u)) =
      let gone = stale loaded (load_owned db user_id bookmark_id if_match loaded h) in
      absurd (ground (arith, gone, u.found))
  second-raises now db after changes if_match stale (ran loaded h (refused e)) = (e, refl)

  pub no_lost_update :
      (now now' : ℕ) (db db' after : Db) (changes changes' : Changes)
      (if_match if_match' : Option Text) (b : Bookmark)
      → HasKeys db'
      → update engine casing now db db' user_id bookmark_id changes if_match ≡ (ok b, after)
      → (e : Exception) × (update engine casing now' db after user_id bookmark_id changes' if_match'
          ≡ (raise e, after))
  no_lost_update now now' db db' after changes changes' if_match if_match' b d h =
      second-raises now' db after changes' if_match'
        (first-IsStale now db db' changes if_match b after d h)
        (update-Run engine casing now' db after user_id bookmark_id changes' if_match')

  stale_load :
      (after : Db) (b : Bookmark) (version : ℕ)
      → get_owned after user_id bookmark_id ≡ some b
      → b.version ≢ version
      → load after user_id bookmark_id (some (make_etag version))
        ≡ raise (app (conflict (some (make_etag b.version))))
  stale_load after b version found ne =
      load_mismatch after user_id bookmark_id (make_etag version) b found (make_etag_given version)
        (matches_ne version b.version (λ e. ne (sym e)))

  -- The guards refuse the ETag that was current before an update.
  pub old_etag_loses :
      (now : ℕ) (db after : Db) (changes : Changes) (if_match : Option Text) (old b : Bookmark)
      → HasKeys db
      → get_owned db user_id bookmark_id ≡ some old
      → update engine casing now db db user_id bookmark_id changes if_match ≡ (ok b, after)
      → load after user_id bookmark_id (some (make_etag old.version))
        ≡ raise (app (conflict (some (make_etag b.version))))
  unfolding find get_owned update_row
  old_etag_loses now db after changes if_match old b d found h =
      let c =
        update-Committed engine casing now db db user_id bookmark_id changes if_match b after h in
      let r = update-Replaced now db db changes if_match b after d h in
      let same_row : c.updated.row ≡ c.old = some-injective _ _ (
        sym c.updated.found ∙ current_of_owned user_id bookmark_id db.bookmarks c.old d c.loaded) in
      let owner : b.user_id ≡ user_id =
        ap (λ (x : Bookmark). x.user_id) c.updated.result
        ∙ ap (λ (x : Bookmark). x.user_id) same_row
        ∙ (get_owned-keys db user_id bookmark_id c.old c.loaded).1 in
      let loaded_old : r.0 ≡ old = some-injective _ _ (sym r.1 ∙ found) in
      stale_load after b old.version
        (ap (λ u. get_owned after u bookmark_id) (sym owner) ∙ r.2.stored)
        (λ e.
          next_ne old.version
            (sym (ap (λ (x : Bookmark). x.version + 1) loaded_old) ∙ sym r.2.version ∙ e))
