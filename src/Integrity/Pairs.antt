-- ===== src/Integrity/Pairs.antt =====
-- The writes of `bookmark_tags` in app/repositories/bookmark/repository.py.
use bookmarks_api.Prelude.{
  ℕ, ◌≡◌, refl, subst, true, none, some, Option, List, [], ◌∷◌, All, Bool-cases, Option-cases, inl,
  inr,
}
use mathlib.Core.Option.{some-injective}
use bookmarks_api.Models.{Tag, Link, Db, has_id}
use bookmarks_api.Repository.Queries.{is_linked}
use bookmarks_api.Repository.Bookmarks.{insert_links, delete_links, tags_without, relink, new_links}
use bookmarks_api.Repository.Bookmarks.Rows.{ids}
use bookmarks_api.Integrity.{add_link, drop_link, Writes, here, next, Writes-trans}
use bookmarks_api.Integrity.Keys.{All-select}
use bookmarks_api.Integrity.Tags.{IsStored}

-- The database with these rows of `bookmark_tags`.
abbrev pub with_links : Db → List Link → Db
with_links db links = record db { bookmark_tags = links }

-- The tags that are assigned, if any are, are rows of the table.
abbrev pub AreStored : Db → Option (List Tag) → Type 0
AreStored db none = Unit
AreStored db (some tags) = All (IsStored db) tags

no_some : {links : List Link} → none ≡ some links → ⊥
no_some h = cc

module _ (db : Db) (bookmark_id : ℕ) where
  pub insert_links-Writes :
      (ts : List Tag) (links : List Link) {after : List Link}
      → has_id bookmark_id (ids db.bookmarks) ≡ true
      → All (IsStored db) ts
      → insert_links bookmark_id ts links ≡ some after
      → Writes (with_links db links) (with_links db after)
  unfolding insert_links
  insert_links-Writes [] links b s h =
      subst (λ o. Writes (with_links db links) (with_links db o)) (some-injective _ _ h) here
  insert_links-Writes (t ∷ ts) links b (st, s) h =
      elim (Bool-cases (is_linked links bookmark_id t.id)) [
        | inl twice ↦ absurd (no_some (rw twice at h))
        | inr fresh ↦
            Writes-trans
              (next here
                (add_link (record { bookmark_id = bookmark_id; tag_id = t.id }) fresh b st refl))
              (insert_links-Writes ts _ b s (rw fresh at h))
      ]

  pub delete_links-Writes :
      (ts : List Tag) (links : List Link) {after : List Link}
      → delete_links bookmark_id ts links ≡ some after
      → Writes (with_links db links) (with_links db after)
  unfolding delete_links
  delete_links-Writes [] links h =
      subst (λ o. Writes (with_links db links) (with_links db o)) (some-injective _ _ h) here
  delete_links-Writes (t ∷ ts) links h = elim (Bool-cases (is_linked links bookmark_id t.id)) [
    | inl there ↦
        Writes-trans (next here (drop_link bookmark_id t.id refl))
          (delete_links-Writes ts _ (rw there at h))
    | inr gone ↦ absurd (no_some (rw gone at h))
  ]

  relink-Writes :
      (old_tags new_tags : List Tag) (links : List Link) {after : List Link}
      → has_id bookmark_id (ids db.bookmarks) ≡ true
      → All (IsStored db) new_tags
      → relink bookmark_id old_tags new_tags links ≡ some after
      → Writes (with_links db links) (with_links db after)
  unfolding relink tags_without
  relink-Writes old_tags new_tags links b s h =
      elim (Option-cases (delete_links bookmark_id (tags_without new_tags old_tags) links)) [
        | inl gone ↦ absurd (no_some (rw (gone, relink) at h))
        | inr (rest, deleted) ↦
            Writes-trans (delete_links-Writes (tags_without new_tags old_tags) links deleted) (
              insert_links-Writes (tags_without old_tags new_tags) rest b
                (All-select (IsStored db) _ new_tags s) (rw (deleted, relink) at h))
      ]

  -- The new pairs of an update, when its tags are rows of the table.
  pub new_links-Writes :
      (old_tags : List Tag) (new_tags : Option (List Tag)) (links : List Link) {after : List Link}
      → has_id bookmark_id (ids db.bookmarks) ≡ true
      → AreStored db new_tags
      → new_links bookmark_id old_tags new_tags links ≡ some after
      → Writes (with_links db links) (with_links db after)
  unfolding new_links
  new_links-Writes old_tags none links b s h =
      subst (λ o. Writes (with_links db links) (with_links db o)) (some-injective _ _ h) here
  new_links-Writes old_tags (some tags) links b s h = relink-Writes old_tags tags links b s h
