-- ===== src/Service/Bookmarks/Locking.antt =====
-- On `update` of app/services/bookmark/service.py: its whole run, from the guards to the commit.
use bookmarks_api.Prelude.{ℕ, ◌≡◌, refl, ap, subst, Option, some}
use bookmarks_api.Text.{Text}
use bookmarks_api.Text.Casing.{Casing}
use bookmarks_api.Models.{Bookmark, Db, Engine}
use bookmarks_api.Result.{Exception, Result, ok, raise}
use bookmarks_api.Repository.Queries.{get_owned}
use bookmarks_api.Repository.Bookmarks.Rows.{ids, IsDistinct}
use bookmarks_api.Service.Bookmarks.{Changes, assign, update, load}
use bookmarks_api.Service.Bookmarks.Guards.{load_owned}
use bookmarks_api.Service.Bookmarks.Updates.{Updated, Outcome, done, refused, apply_changes-Outcome}

ok-injective : {a b : Bookmark} → ok a ≡ ok b → a ≡ b
ok-injective h = cc

-- No two bookmarks of the table share a key.
abbrev pub HasKeys : Db → Type 0
HasKeys db = IsDistinct (ids db.bookmarks)

module _ (engine : Engine) (casing : Casing) (now : ℕ) (db db' : Db) (user_id bookmark_id : ℕ)
    (changes : Changes) (if_match : Option Text) where
  -- The whole of `update`: the guards refuse, or the update is carried out or refused.
  pub data Run : Result Bookmark × Db → Type 0 where
    stopped : (e : Exception) → load db user_id bookmark_id if_match ≡ raise e → Run (raise e, db')
    ran :
        {out : Result Bookmark × Db} (loaded : Bookmark)
        → load db user_id bookmark_id if_match ≡ ok loaded
        → Outcome now loaded (assign changes loaded) db' out
        → Run out

  Run-of_load :
      (r : Result Bookmark)
      → load db user_id bookmark_id if_match ≡ r
      → Run (update engine casing now db db' user_id bookmark_id changes if_match)
  unfolding update
  Run-of_load (raise e) h = rw (h, update) (stopped e h)
  Run-of_load (ok loaded) h =
      rw (h, update)
        (ran loaded h
          (apply_changes-Outcome engine casing now db db' user_id bookmark_id changes loaded))

  pub update-Run : Run (update engine casing now db db' user_id bookmark_id changes if_match)
  update-Run = Run-of_load (load db user_id bookmark_id if_match) refl

  raised-Run :
      {out : Result Bookmark × Db} → Run out → (e : Exception) → out.0 ≡ raise e → out.1 ≡ db'
  raised-Run (stopped e h) e' r = refl
  raised-Run (ran loaded h (done u)) e' r = cc
  raised-Run (ran loaded h (refused e)) e' r = refl

  pub update_raises :
      (e : Exception)
      → (update engine casing now db db' user_id bookmark_id changes if_match).0 ≡ raise e
      → (update engine casing now db db' user_id bookmark_id changes if_match).1 ≡ db'
  update_raises = raised-Run update-Run

  -- What a committed update did.
  pub record Committed (b : Bookmark) (after : Db) : Type 0 where
    pub old : Bookmark
    pub loaded : get_owned db user_id bookmark_id ≡ some old
    pub updated : Updated now old (assign changes old) b db' after

  ok-Run :
      {out : Result Bookmark × Db} → Run out → (b : Bookmark) → out.0 ≡ ok b → Committed b out.1
  ok-Run (stopped e h) b r = cc
  ok-Run (ran loaded h (done {b = b'} {db' = after} u)) b r = record {
    old = loaded;
    loaded = load_owned db user_id bookmark_id if_match loaded h;
    updated =
        subst (λ x. Updated now loaded (assign changes loaded) x db' after) (ok-injective r) u;
  }
  ok-Run (ran loaded h (refused e)) b r = cc

  pub update-Committed :
      (b : Bookmark) (after : Db)
      → update engine casing now db db' user_id bookmark_id changes if_match ≡ (ok b, after)
      → Committed b after
  update-Committed b after h =
      subst (Committed b) (ap (λ o. o.1) h) (ok-Run update-Run b (ap (λ o. o.0) h))
