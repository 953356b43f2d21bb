-- ===== src/Tagging/Update.antt =====
-- On `update` of app/services/bookmark/service.py: its success with tags, and the tags it leaves.
use bookmarks_api.Prelude.{
  Bool-cases, inl, inr, ◌==◌, ℕ, ◌≡◌, refl, ap, ◌∙◌, false, true, some, List, arith, find,
}
use bookmarks_api.Text.{Text, is_empty, strip}
use bookmarks_api.Text.Casing.{Casing}
use bookmarks_api.Etag.{matches}
use bookmarks_api.Tags.{RawTag, member, normalize_tags}
use bookmarks_api.Tags.Laws.{normalize_tags-IsTag}
use bookmarks_api.Models.{Tag, Bookmark, Link, Db, Engine}
use bookmarks_api.Result.{ok}
use bookmarks_api.Repository.Tags.{get_or_create}
use bookmarks_api.Repository.Queries.{get_owned, is_linked}
use bookmarks_api.Repository.Bookmarks
use bookmarks_api.Repository.Bookmarks.{is_current, relink, new_links, update_row, update_rows}
use bookmarks_api.Repository.Bookmarks.Rows.{current_of_owned}
use bookmarks_api.Service.Bookmarks.{Changes, assign, tags_of, or_conflict, apply_changes, update}
use bookmarks_api.Service.Bookmarks.Columns.{
  changed, update_row-changed, update_of_load, load_passes,
}
use bookmarks_api.Integrity.{IsValid}
use bookmarks_api.Tagging.Links.{relink_done}
use bookmarks_api.Tagging.Reading.{
  tags_of_full, tags_of-IsDistinct, Tagged, tags_of-names, get_or_create-Resolved,
  resolve_tags_done,
}

module _ (now : ℕ) where
  commit_tags :
      (before db : Db) (old assigned : Bookmark) (old_tags new_tags : List Tag) (links : List Link)
      → find (is_current old) db.bookmarks ≡ some old
      → relink old.id old_tags new_tags db.bookmark_tags ≡ some links
      → Bookmarks.update now before db old old_tags assigned (some new_tags) ≡ (
        ok (update_row now old assigned old),
        record db { bookmarks = update_rows now old assigned db.bookmarks; bookmark_tags = links },
      )
  unfolding Bookmarks.update new_links
  commit_tags before db old assigned old_tags new_tags links found done =
      rw (found, done, Bookmarks.update) refl

module _ (engine : Engine) (casing : Casing) (now : ℕ) (db : Db) (user_id bookmark_id : ℕ)
    (changes : Changes) where
  apply_tags :
      (old : Bookmark) (raw : List RawTag) (names : List Text)
      → changes.tags ≡ some raw
      → normalize_tags casing (some raw) ≡ ok names
      → apply_changes engine casing now db db user_id bookmark_id changes old
        ≡ or_conflict user_id bookmark_id (
            Bookmarks.update now db
              (get_or_create engine names db).1
              old
              (tags_of db old)
              (assign changes old)
              (some ((get_or_create engine names db).0)))
  unfolding apply_changes assign
  apply_tags old raw names tags h =
      rw (tags, resolve_tags_done engine casing raw names db h, apply_changes) refl

  -- Where the tables keep their constraints, an update with tags that normalise and an `If-Match`
  -- that names the version of the caller's bookmark, with no other request in between, succeeds:
  -- the answer has the columns of the request, the time and the next version, the names of the
  -- bookmark's tags are the normalised names, and other bookmarks keep their tags.
  pub update_succeeds :
      (if_match : Text) (old : Bookmark) (raw : List RawTag) (names : List Text)
      → IsValid db
      → get_owned db user_id bookmark_id ≡ some old
      → is_empty (strip if_match) ≡ false
      → matches if_match old.version ≡ true
      → changes.tags ≡ some raw
      → normalize_tags casing (some raw) ≡ ok names
      → (after : Db) × (update engine casing now db db user_id bookmark_id changes (some if_match)
          ≡ (ok (changed now changes old), after))
        × (after.bookmarks ≡ update_rows now old (assign changes old) db.bookmarks)
        × Tagged names old db after
  unfolding or_conflict get_owned
  update_succeeds if_match old raw names v found given same tags h =
      let us = (get_or_create engine names db).0 in
      let flushed = (get_or_create engine names db).1 in
      let r =
        get_or_create-Resolved engine casing names db v
          (normalize_tags-IsTag casing (some raw) names h).1 in
      let assigned = assign changes old in
      let links =
        relink_done old.id (tags_of db old) us flushed.bookmark_tags (tags_of-IsDistinct db old v)
          r.distinct (λ i. ap (λ ls. is_linked ls old.id i) r.links ∙ tags_of_full db old i v) in
      let current : find (is_current old) flushed.bookmarks ≡ some old =
        ap (find (is_current old)) r.bookmarks
        ∙ current_of_owned user_id bookmark_id db.bookmarks old v.bookmarks found in
      let after : Db = record flushed {
        bookmarks = update_rows now old assigned flushed.bookmarks;
        bookmark_tags = links.after;
      } in
      (
        after,
        update_of_load engine casing now db db user_id bookmark_id changes (some if_match) old
              (load_passes db user_id bookmark_id if_match old found given same)
            ∙ apply_tags old raw names tags h
            ∙ ap (or_conflict user_id bookmark_id) (
                commit_tags now db flushed old assigned (tags_of db old) us links.after current
                  links.done)
            ∙ ap (λ b. (ok b, after)) (update_row-changed now changes old),
        ap (update_rows now old assigned) r.bookmarks,
        record {
          named = λ name.
              tags_of-names flushed after old us name r.valid refl r.rows links.linked
              ∙ ap (member name) r.named;
          others = λ i tag_id. elim (Bool-cases (i == old.id)) [
            | inl here ↦ inl (ground arith)
            | inr other ↦
                inr (links.others i tag_id other ∙ ap (λ ls. is_linked ls i tag_id) r.links)
          ];
        },
      )
