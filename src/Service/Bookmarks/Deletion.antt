-- ===== src/Service/Bookmarks/Deletion.antt =====
-- On `delete` of app/services/bookmark/service.py.
use bookmarks_api.Prelude.{
  ℕ, ◌≡◌, refl, sym, ap, subst, ◌∙◌, false, not, ◌&&◌, Option, none, some, List, [], ◌∷◌, arith,
  find, select, ◌==◌, Option-cases, Bool-cases, inl, inr, ◌⊎◌,
}
use mathlib.Core.Option.{some-injective}
use bookmarks_api.Text.{Text}
use bookmarks_api.Models.{Tag, Link, Bookmark, Db, has_id}
use bookmarks_api.Result.{Exception, Result, ok, raise}
use bookmarks_api.Repository.Queries.{get_owned, is_linked}
use bookmarks_api.Repository.Bookmarks.{is_current, remove_link, delete_links}
use bookmarks_api.Repository.Bookmarks
use bookmarks_api.Repository.Bookmarks.Rows.{ids, owned, IsDistinct, has_id-current}
use bookmarks_api.Service.Bookmarks.{delete, load, tags_of, or_conflict}
use bookmarks_api.Service.Bookmarks.Guards.{get_owned-keys, load_owned}
use bookmarks_api.Service.Bookmarks.Locking.{HasKeys}

module _ (loaded : Bookmark) where
  abbrev pub kept : List Bookmark → List Bookmark
  kept = select (λ b. not (is_current loaded b))

  find-kept_other :
      (user_id i : ℕ) (rows : List Bookmark)
      → (i == loaded.id) ≡ false
      → find (owned user_id i) (kept rows) ≡ find (owned user_id i) rows
  unfolding find select
  find-kept_other user_id i [] ne = refl
  find-kept_other user_id i (r ∷ rows) ne = ground (arith, find-kept_other user_id i rows ne)

  find-kept_absent :
      (user_id : ℕ) (rows : List Bookmark)
      → has_id loaded.id (ids rows) ≡ false
      → find (owned user_id loaded.id) (kept rows) ≡ none
  unfolding find select has_id
  find-kept_absent user_id [] h = refl
  find-kept_absent user_id (r ∷ rows) h = ground (arith, find-kept_absent user_id rows)

  find-kept_gone :
      (user_id : ℕ) (rows : List Bookmark) (row : Bookmark)
      → IsDistinct (ids rows)
      → find (is_current loaded) rows ≡ some row
      → find (owned user_id loaded.id) (kept rows) ≡ none
  unfolding find select has_id
  find-kept_gone user_id [] row d h = refl
  find-kept_gone user_id (r ∷ rows) row (fresh, d) h = elim (Bool-cases (is_current loaded r)) [
    | inl current ↦
        let same : r.id ≡ loaded.id = ground arith in
        rw current
          (find-kept_absent user_id rows (subst (λ i. has_id i (ids rows) ≡ false) same fresh))
    | inr past ↦
        let later : find (is_current loaded) rows ≡ some row = rw past at h in
        ground
          (arith, has_id-current loaded rows row later, find-kept_gone user_id rows row d later)
  ]

is_linked-remove_other :
    (bookmark_id tag_id : ℕ) (links : List Link) (i t : ℕ)
    → (i == bookmark_id) ≡ false
    → is_linked (remove_link bookmark_id tag_id links) i t ≡ is_linked links i t
unfolding is_linked remove_link select
is_linked-remove_other bookmark_id tag_id [] i t ne = refl
is_linked-remove_other bookmark_id tag_id (l ∷ links) i t ne =
    ground (arith, is_linked-remove_other bookmark_id tag_id links i t ne)

is_linked-delete_other :
    (bookmark_id : ℕ) (ts : List Tag) (links rest : List Link) (i t : ℕ)
    → (i == bookmark_id) ≡ false
    → delete_links bookmark_id ts links ≡ some rest
    → is_linked rest i t ≡ is_linked links i t
unfolding delete_links
is_linked-delete_other bookmark_id [] links rest i t ne h =
    ap (λ ls. is_linked ls i t) (sym (some-injective links rest h))
is_linked-delete_other bookmark_id (u ∷ ts) links rest i t ne h =
    elim (Bool-cases (is_linked links bookmark_id u.id)) [
      | inl there ↦
          is_linked-delete_other bookmark_id ts (remove_link bookmark_id u.id links) rest i t ne
            (rw there at h)
          ∙ is_linked-remove_other bookmark_id u.id links i t ne
      | inr gone ↦ absurd (no_rest (rw gone at h))
    ]
  where
    no_rest : none ≡ some rest → ⊥
    no_rest e = cc

-- The pairs of one bookmark are taken out, and no others.
is_linked-cascade :
    (bookmark_id : ℕ) (links : List Link) (i t : ℕ)
    → is_linked (select (λ (l : Link). not (l.bookmark_id == bookmark_id)) links) i t
      ≡ (not (i == bookmark_id) && is_linked links i t)
unfolding is_linked select
is_linked-cascade bookmark_id [] i t = ground arith
is_linked-cascade bookmark_id (l ∷ links) i t =
    ground (arith, is_linked-cascade bookmark_id links i t)

-- The tables besides the bookmarks, after one of these is removed.
pub record RemovesPairs (bookmark_id : ℕ) (db' after : Db) : Type 0 where
  pub linked :
      (i t : ℕ)
      → is_linked after.bookmark_tags i t
        ≡ (not (i == bookmark_id) && is_linked db'.bookmark_tags i t)
  pub users : after.users ≡ db'.users
  pub tags : after.tags ≡ db'.tags

delete_pairs :
    (bookmark_id : ℕ) (ts : List Tag) (links rest : List Link) (i t : ℕ)
    → delete_links bookmark_id ts links ≡ some rest
    → is_linked (select (λ (l : Link). not (l.bookmark_id == bookmark_id)) rest) i t
      ≡ (not (i == bookmark_id) && is_linked links i t)
delete_pairs bookmark_id ts links rest i t h = elim (Bool-cases (i == bookmark_id)) [
  | inl here ↦ is_linked-cascade bookmark_id rest i t ∙ rw here refl
  | inr other ↦
      is_linked-cascade bookmark_id rest i t
      ∙ ap (λ b. not (i == bookmark_id) && b)
          (is_linked-delete_other bookmark_id ts links rest i t other h)
]

-- The end of a deletion, behind its guards or not.
pub data Removal (loaded : Bookmark) (db' : Db) : Result (Unit {0}) × Db → Type 0 where
  removed :
      (row : Bookmark) (after : Db)
      → find (is_current loaded) db'.bookmarks ≡ some row
      → after.bookmarks ≡ kept loaded db'.bookmarks
      → RemovesPairs loaded.id db' after
      → Removal loaded db' (ok tt, after)
  refused : (e : Exception) → Removal loaded db' (raise e, db')

pub commit-Removal :
    (db' : Db) (loaded : Bookmark) (old_tags : List Tag) (user_id bookmark_id : ℕ)
    → Removal loaded db' (or_conflict user_id bookmark_id (Bookmarks.delete db' loaded old_tags))
unfolding Bookmarks.delete or_conflict
commit-Removal db' loaded old_tags user_id bookmark_id =
    elim (Option-cases (delete_links loaded.id old_tags db'.bookmark_tags)) [
      | inl gone ↦ rw (gone, Bookmarks.delete) (refused _)
      | inr (links, unlinked) ↦ elim (Option-cases (find (is_current loaded) db'.bookmarks)) [
        | inl stale ↦ rw (unlinked, stale, Bookmarks.delete) (refused _)
        | inr (row, found) ↦
            rw (unlinked, found, Bookmarks.delete)
              (removed row _ found refl (record {
                linked =
                    λ i t. delete_pairs loaded.id old_tags db'.bookmark_tags links i t unlinked;
                users = refl;
                tags = refl;
              }))
      ]
    ]

-- What a deletion of row `bookmark_id` leaves in the database.
pub record Deleted (bookmark_id : ℕ) (db' after : Db) : Type 0 where
  pub gone : (user_id : ℕ) → get_owned after user_id bookmark_id ≡ none
  pub others :
      (user_id i : ℕ) → (i ≡ bookmark_id) ⊎ (get_owned after user_id i ≡ get_owned db' user_id i)
  pub pairs : RemovesPairs bookmark_id db' after

Removal-Deleted :
    {loaded : Bookmark} {db' : Db} {out : Result (Unit {0}) × Db}
    → HasKeys db'
    → Removal loaded db' out
    → out.0 ≡ ok tt
    → Deleted loaded.id db' out.1
unfolding get_owned
Removal-Deleted {loaded} {db'} d (removed row after found rows pairs) r = record {
  gone = λ user_id.
      ap (find (owned user_id loaded.id)) rows
      ∙ find-kept_gone loaded user_id db'.bookmarks row d found;
  others = λ user_id i. elim (Bool-cases (i == loaded.id)) [
    | inl here ↦ inl (ground arith)
    | inr elsewhere ↦ inr (
        ap (find (owned user_id i)) rows ∙ find-kept_other loaded user_id i db'.bookmarks elsewhere)
  ];
  pairs = pairs;
}
Removal-Deleted d (refused e) r = cc

no_ok : {e : Exception} {u : Unit {0}} → raise e ≡ ok u → ⊥
no_ok h = cc

module _ (db db' after : Db) (user_id bookmark_id : ℕ) (if_match : Option Text) where
  loaded-Deleted :
      (r : Result Bookmark)
      → HasKeys db'
      → load db user_id bookmark_id if_match ≡ r
      → delete db db' user_id bookmark_id if_match ≡ (ok tt, after)
      → (old : Bookmark) × (get_owned db user_id bookmark_id ≡ some old)
        × Deleted bookmark_id db' after
  unfolding delete
  loaded-Deleted (raise e) d l h =
      let failed : (raise e, db') ≡ (ok tt, after) = rw (l, delete) at h in
      absurd (no_ok (ap (λ (o : Result (Unit {0}) × Db). o.0) failed))
  loaded-Deleted (ok loaded) d l h =
      let found = load_owned db user_id bookmark_id if_match loaded l in
      let run : or_conflict user_id bookmark_id (Bookmarks.delete db' loaded (tags_of db loaded))
          ≡ (ok tt, after) =
        rw (l, delete) at h in
      let left =
        Removal-Deleted d (commit-Removal db' loaded (tags_of db loaded) user_id bookmark_id)
          (ap (λ o. o.0) run) in
      (
        loaded,
        found,
        subst (λ i. Deleted i db' after) (get_owned-keys db user_id bookmark_id loaded found).0
            (subst (Deleted loaded.id db') (ap (λ o. o.1) run) left),
      )

  -- A deletion that succeeds was asked for on a bookmark that was the caller's own when it was read.
  -- Afterwards nobody finds a bookmark under its key and no tag is linked to it; every other bookmark
  -- and its links, the users and the tags are as they were. No two bookmarks may share a key.
  pub delete-Deleted :
      HasKeys db'
      → delete db db' user_id bookmark_id if_match ≡ (ok tt, after)
      → (old : Bookmark) × (get_owned db user_id bookmark_id ≡ some old)
        × Deleted bookmark_id db' after
  delete-Deleted d = loaded-Deleted (load db user_id bookmark_id if_match) d refl
