-- ===== src/Integrity/Mutations.antt =====
-- The requests that change or remove a bookmark, as writes of one transaction.
use bookmarks_api.Prelude.{
  ℕ, ◌≡◌, refl, sym, subst, none, some, Option, List, arith, find, Option-cases, inl, inr,
}
use bookmarks_api.Text.{Text}
use bookmarks_api.Text.Casing.{Casing}
use bookmarks_api.Tags.{RawTag}
use bookmarks_api.Models.{Tag, Bookmark, Db, Engine}
use bookmarks_api.Result.{Result, ok, raise}
use bookmarks_api.Repository.Bookmarks.{insert_links, delete_links, new_links, is_current, tag_ids}
use bookmarks_api.Repository.Bookmarks
use bookmarks_api.Repository.Bookmarks.Rows.{has_id-current}
use bookmarks_api.Service.Bookmarks.{
  Changes, assign, tags_of, or_conflict, load, resolve_tags, apply_changes, update, delete,
}
use bookmarks_api.Integrity.{change_row, drop_row, Writes, here, next, Writes-trans}
use bookmarks_api.Integrity.Pairs.{AreStored, delete_links-Writes, new_links-Writes}
use bookmarks_api.Integrity.Requests.{resolve_tags-Writes}

or_conflict_db {ℓ} :
    {A : Type ℓ} (user_id bookmark_id : ℕ) (out : Result A × Db)
    → (or_conflict user_id bookmark_id out).1 ≡ out.1
unfolding or_conflict
or_conflict_db user_id bookmark_id (ok a, db) = refl
or_conflict_db user_id bookmark_id (raise e, db) = ground arith

-- The commit of an update writes its pairs and its row, or is rolled back.
commit-Writes :
    (now : ℕ) (before db : Db) (loaded assigned : Bookmark) (old_tags : List Tag)
    (new_tags : Option (List Tag))
    → Writes before db
    → AreStored db new_tags
    → Writes before (Bookmarks.update now before db loaded old_tags assigned new_tags).1
unfolding Bookmarks.update
commit-Writes now before db loaded assigned old_tags new_tags w s =
    elim (Option-cases (find (is_current loaded) db.bookmarks)) [
      | inl gone ↦ rw (gone, Bookmarks.update) here
      | inr (row, found) ↦
          elim (Option-cases (new_links loaded.id old_tags new_tags db.bookmark_tags)) [
            | inl clash ↦ rw (found, clash, Bookmarks.update) here
            | inr (links, linked) ↦
                rw (found, linked, Bookmarks.update)
                  (next
                    (Writes-trans w (
                      new_links-Writes db loaded.id old_tags new_tags db.bookmark_tags
                        (has_id-current loaded db.bookmarks row found) s linked))
                    (change_row now loaded assigned refl))
          ]
    ]

module _ (engine : Engine) (casing : Casing) (now : ℕ) (db db' : Db) (user_id bookmark_id : ℕ)
    (changes : Changes) where
  conflict-Writes :
      (loaded : Bookmark) (flushed : Db) (new_tags : Option (List Tag))
      → Writes db' flushed
      → AreStored flushed new_tags
      → Writes db'
          (or_conflict user_id bookmark_id (
            Bookmarks.update now db' flushed loaded
              (tags_of db loaded)
              (assign changes loaded)
              new_tags)).1
  conflict-Writes loaded flushed new_tags w s =
      subst (Writes db') (sym (or_conflict_db user_id bookmark_id _)) (
        commit-Writes now db' flushed loaded (assign changes loaded) (tags_of db loaded) new_tags w
          s)

  resolved-Writes :
      (loaded : Bookmark) (raw : List RawTag) (resolved : Result (List Tag × Db))
      → changes.tags ≡ some raw
      → resolve_tags engine casing raw db' ≡ resolved
      → Writes db' (apply_changes engine casing now db db' user_id bookmark_id changes loaded).1
  unfolding apply_changes assign
  resolved-Writes loaded raw (raise e) tags r = rw (tags, r, apply_changes) here
  resolved-Writes loaded raw (ok (new_tags, flushed)) tags r =
      let (w, s) = resolve_tags-Writes engine casing raw db' r in
      rw (tags, r, apply_changes) (conflict-Writes loaded flushed (some new_tags) w s)

  apply_changes-Writes :
      (loaded : Bookmark)
      → Writes db' (apply_changes engine casing now db db' user_id bookmark_id changes loaded).1
  unfolding apply_changes assign
  apply_changes-Writes loaded = elim (Option-cases changes.tags) [
    | inl no_tags ↦ rw (no_tags, apply_changes) (conflict-Writes loaded db' none here tt)
    | inr (raw, tags) ↦ resolved-Writes loaded raw (resolve_tags engine casing raw db') tags refl
  ]

  update-of_load :
      (if_match : Option Text) (r : Result Bookmark)
      → load db user_id bookmark_id if_match ≡ r
      → Writes db' (update engine casing now db db' user_id bookmark_id changes if_match).1
  unfolding update
  update-of_load if_match (raise e) h = rw (h, update) here
  update-of_load if_match (ok loaded) h = rw (h, update) (apply_changes-Writes loaded)

  pub update-Writes :
      (if_match : Option Text)
      → Writes db' (update engine casing now db db' user_id bookmark_id changes if_match).1
  update-Writes if_match = update-of_load if_match (load db user_id bookmark_id if_match) refl

remove-Writes :
    (db : Db) (loaded : Bookmark) (old_tags : List Tag)
    → Writes db (Bookmarks.delete db loaded old_tags).1
unfolding Bookmarks.delete
remove-Writes db loaded old_tags =
    elim (Option-cases (delete_links loaded.id old_tags db.bookmark_tags)) [
      | inl gone ↦ rw (gone, Bookmarks.delete) here
      | inr (links, unlinked) ↦ elim (Option-cases (find (is_current loaded) db.bookmarks)) [
        | inl stale ↦ rw (unlinked, stale, Bookmarks.delete) here
        | inr (row, found) ↦
            rw (unlinked, found, Bookmarks.delete)
              (next (delete_links-Writes db loaded.id old_tags db.bookmark_tags unlinked)
                (drop_row loaded refl))
      ]
    ]

pub delete-Writes :
    (db db' : Db) (user_id bookmark_id : ℕ) (if_match : Option Text)
    → Writes db' (delete db db' user_id bookmark_id if_match).1
unfolding delete
delete-Writes db db' user_id bookmark_id if_match =
    from_load (load db user_id bookmark_id if_match) refl
  where
    from_load :
        (r : Result Bookmark)
        → load db user_id bookmark_id if_match ≡ r
        → Writes db' (delete db db' user_id bookmark_id if_match).1
    from_load (raise e) h = rw (h, delete) here
    from_load (ok loaded) h =
        rw (h, delete)
          (subst (Writes db') (sym (or_conflict_db user_id bookmark_id _))
            (remove-Writes db' loaded (tags_of db loaded)))
