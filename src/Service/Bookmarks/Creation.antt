-- ===== src/Service/Bookmarks/Creation.antt =====
-- On `create` of app/services/bookmark/service.py.
use bookmarks_api.Prelude.{
  ℕ, ◌≡◌, ◌≢◌, refl, sym, ap, subst, ◌∙◌, false, Option, some, List, [], ◌∷◌, ◌++◌, map, arith,
  find, ◌==◌, Option-cases, Bool-cases, inl, inr, ◌⊎◌,
}
use bookmarks_api.Text.{Text}
use bookmarks_api.Text.Casing.{Casing}
use bookmarks_api.Tags.{RawTag}
use bookmarks_api.Models.{User, Tag, Bookmark, Db, Engine, has_id}
use bookmarks_api.Result.{Exception, Result, ok, raise}
use bookmarks_api.Repository.Queries.{get_owned}
use bookmarks_api.Repository.Bookmarks.{insert_links}
use bookmarks_api.Repository.Bookmarks
use bookmarks_api.Repository.Bookmarks.Rows.{ids, owned, IsDistinct}
use bookmarks_api.Service.Bookmarks.{create, resolve_tags, or_rollback}
use bookmarks_api.Service.Bookmarks.Locking.{HasKeys}
use bookmarks_api.Service.Bookmarks.Updates.{resolve_tags-keeps}

find_fresh :
    (user_id i : ℕ) (rows : List Bookmark) (b : Bookmark)
    → has_id i (ids rows) ≡ false
    → b.id ≡ i
    → b.user_id ≡ user_id
    → find (owned user_id i) (rows ++ b ∷ []) ≡ some b
unfolding find has_id
find_fresh user_id i [] b h e o = ground arith
find_fresh user_id i (r ∷ rows) b h e o = ground (arith, find_fresh user_id i rows b)

find_other :
    (user_id i : ℕ) (rows : List Bookmark) (b : Bookmark)
    → i ≢ b.id
    → find (owned user_id i) (rows ++ b ∷ []) ≡ find (owned user_id i) rows
unfolding find
find_other user_id i [] b h = ground arith
find_other user_id i (r ∷ rows) b h = ground (arith, find_other user_id i rows b h)

has_id-append :
    (i : ℕ) (rows : List Bookmark) (b : Bookmark)
    → has_id i (ids rows) ≡ false
    → b.id ≢ i
    → has_id i (ids (rows ++ b ∷ [])) ≡ false
unfolding has_id
has_id-append i [] b h ne = ground arith
has_id-append i (r ∷ rows) b h ne = ground (arith, has_id-append i rows b)

IsDistinct-append :
    (rows : List Bookmark) (b : Bookmark)
    → IsDistinct (ids rows)
    → has_id b.id (ids rows) ≡ false
    → IsDistinct (ids (rows ++ b ∷ []))
unfolding has_id
IsDistinct-append [] b d h = (refl, tt)
IsDistinct-append (r ∷ rows) b (fresh, d) h =
    (has_id-append r.id rows b fresh (ground arith), IsDistinct-append rows b d (ground arith))

-- What a creation leaves in the database.
pub record Created (user_id : ℕ) (b : Bookmark) (db after : Db) : Type 0 where
  pub owner : b.user_id ≡ user_id
  pub version : b.version ≡ 1
  pub stored : get_owned after user_id b.id ≡ some b
  pub others : (other i : ℕ) → (i ≡ b.id) ⊎ (get_owned after other i ≡ get_owned db other i)
  pub keys : HasKeys after

pub data Inserted (user_id : ℕ) (db before : Db) : Result Bookmark × Db → Type 0 where
  inserted :
      (b : Bookmark) (after : Db)
      → b.user_id ≡ user_id
      → b.version ≡ 1
      → has_id b.id (ids db.bookmarks) ≡ false
      → after.bookmarks ≡ db.bookmarks ++ b ∷ []
      → Inserted user_id db before (ok b, after)
  rolled_back : (e : Exception) → Inserted user_id db before (raise e, before)

ok_inj : {a b : Bookmark} → ok a ≡ ok b → a ≡ b
ok_inj h = cc

no_ok : {e : Exception} {b : Bookmark} → raise e ≡ ok b → ⊥
no_ok h = cc

rows_find :
    (user_id i : ℕ) (after : Db) {rows : List Bookmark}
    → after.bookmarks ≡ rows
    → get_owned after user_id i ≡ find (owned user_id i) rows
unfolding get_owned
rows_find user_id i after h = ap (find (owned user_id i)) h

module _ (engine : Engine) (casing : Casing) (now user_id : ℕ) (url title : Text)
    (description : Option Text) where
  add-Inserted :
      (before db : Db) (tags : List Tag)
      → Inserted user_id db before
          (or_rollback before (Bookmarks.add engine now db url title description user_id tags))
  unfolding or_rollback Bookmarks.add
  add-Inserted before db tags =
      let i = engine.new_id (ids db.bookmarks) in
      elim (Bool-cases (has_id user_id (map (λ (u : User). u.id) db.users))) [
        | inr absent ↦ rw absent (rolled_back _)
        | inl present ↦ rw present (elim (Option-cases (insert_links i tags db.bookmark_tags)) [
          | inl clash ↦ rw clash (rolled_back _)
          | inr (links, linked) ↦
              rw linked (inserted _ _ refl refl (engine.new_id-fresh (ids db.bookmarks)) refl)
        ])
      ]

  Inserted-Created :
      {db before : Db} {out : Result Bookmark × Db}
      → HasKeys db
      → Inserted user_id db before out
      → (b : Bookmark) (after : Db) → out ≡ (ok b, after)
      → Created user_id b db after
  Inserted-Created {db} {before} d (inserted b after owner version fresh rows) b' after' same =
      let kept : Created user_id b db after = record {
        owner = owner;
        version = version;
        stored =
            rows_find user_id b.id after rows
            ∙ find_fresh user_id b.id db.bookmarks b fresh refl owner;
        others = λ other i. elim (Bool-cases (i == b.id)) [
          | inl here ↦ inl (ground arith)
          | inr elsewhere ↦ inr (
              rows_find other i after rows
              ∙ find_other other i db.bookmarks b (ground arith)
              ∙ sym (rows_find other i db refl))
        ];
        keys =
            subst (λ rs. IsDistinct (ids rs)) (sym rows) (IsDistinct-append db.bookmarks b d fresh);
      } in
      subst (λ a. Created user_id b' db a) (ap (λ o. o.1) same)
        (subst (λ c. Created user_id c db after) (ok_inj (ap (λ o. o.0) same)) kept)
  Inserted-Created d (rolled_back e) b' after' same = absurd (no_ok (ap (λ o. o.0) same))

  rebased-Inserted :
      {before flushed db : Db} {out : Result Bookmark × Db}
      → flushed.bookmarks ≡ db.bookmarks
      → Inserted user_id flushed before out
      → Inserted user_id db before out
  rebased-Inserted same (inserted b after owner version fresh rows) =
      inserted b after owner version (subst (λ rs. has_id b.id (ids rs) ≡ false) same fresh)
        (rows ∙ ap (λ rs. rs ++ b ∷ []) same)
  rebased-Inserted same (rolled_back e) = rolled_back e

  -- A creation appends one row with a key of its own, or is rolled back.
  pub create-Inserted :
      (tags : List RawTag) (db : Db)
      → Inserted user_id db db (create engine casing now db user_id url title description tags)
  unfolding create
  create-Inserted tags db = from_resolved (resolve_tags engine casing tags db) refl
    where
      from_resolved :
          (resolved : Result (List Tag × Db))
          → resolve_tags engine casing tags db ≡ resolved
          → Inserted user_id db db (create engine casing now db user_id url title description tags)
      from_resolved (raise e) r = rw (r, create) (rolled_back e)
      from_resolved (ok (tag_objs, flushed)) r =
          rw (r, create)
            (rebased-Inserted (resolve_tags-keeps engine casing tags db r).0
              (add-Inserted db flushed tag_objs))

  -- A creation that succeeds answers with the caller's new bookmark, at version 1 and stored under a
  -- key of its own, and no other row is touched.
  pub create-Created :
      (tags : List RawTag) (db : Db) (b : Bookmark) (after : Db)
      → HasKeys db
      → create engine casing now db user_id url title description tags ≡ (ok b, after)
      → Created user_id b db after
  create-Created tags db b after d = Inserted-Created d (create-Inserted tags db) b after
