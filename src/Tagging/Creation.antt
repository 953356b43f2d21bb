-- ===== src/Tagging/Creation.antt =====
-- On `create` of app/services/bookmark/service.py: its success, and the tags of the new bookmark.
use bookmarks_api.Prelude.{
  Bool-cases, inl, inr, ◌==◌, ℕ, ◌≡◌, refl, sym, ap, subst, ◌∙◌, true, false, All-map, Option, some,
  List, [], ◌∷◌, ◌++◌, arith,
}
use bookmarks_api.Text.{Text}
use bookmarks_api.Text.Casing.{Casing}
use bookmarks_api.Tags.{RawTag, member, normalize_tags}
use bookmarks_api.Tags.Laws.{normalize_tags-IsTag}
use bookmarks_api.Tags.Laws
use bookmarks_api.Models.{Tag, Bookmark, Link, Db, Engine, has_id}
use bookmarks_api.Result.{Result, ok}
use bookmarks_api.Repository.Tags.Laws.{get_or_create-Extends}
use bookmarks_api.Repository.Tags.{get_or_create}
use bookmarks_api.Repository.Queries.{is_linked}
use bookmarks_api.Repository.Bookmarks
use bookmarks_api.Repository.Bookmarks.{insert_links, tag_ids}
use bookmarks_api.Repository.Bookmarks.Rows.{ids}
use bookmarks_api.Service.Bookmarks.{create, or_rollback}
use bookmarks_api.Integrity.{user_ids, IsValid, Writes}
use bookmarks_api.Integrity.Keeps.{Writes-IsValid}
use bookmarks_api.Integrity.Tags.{IsRow-IsStored, get_or_create-Writes}
use bookmarks_api.Integrity.Requests.{or_rollback-Writes}
use bookmarks_api.Tagging.Links.{insert_links_done}
use bookmarks_api.Tagging.Reading.{
  unlinked, Tagged, tags_of-names, get_or_create-Resolved, resolve_tags_done,
}

module _ (engine : Engine) (casing : Casing) (now user_id : ℕ) (url title : Text)
    (description : Option Text) where
  -- The row that an insert into this database makes.
  abbrev inserted : Db → Bookmark
  inserted db = record {
    id = engine.new_id (ids db.bookmarks);
    url = url;
    title = title;
    description = description;
    user_id = user_id;
    created_at = now;
    updated_at = now;
    version = 1;
  }

  -- An insert that goes through, in a database that keeps its constraints.
  pub record Added (names : List Text) (db : Db) : Type 0 where
    pub bookmark : Bookmark
    pub after : Db
    pub done :
        Bookmarks.add engine now
          (get_or_create engine names db).1
          url
          title
          description
          user_id
          (get_or_create engine names db).0
        ≡ (ok bookmark, after)
    pub row : bookmark ≡ inserted db
    pub bookmarks : after.bookmarks ≡ db.bookmarks ++ bookmark ∷ []
    pub users : after.users ≡ db.users
    pub created : List Tag
    pub tags : after.tags ≡ db.tags ++ created
    pub valid : IsValid after
    pub tagged : Tagged names bookmark db after

  add_done :
      (db : Db) (tags : List Tag) (links : List Link)
      → has_id user_id (user_ids db.users) ≡ true
      → insert_links (inserted db).id tags db.bookmark_tags ≡ some links
      → Bookmarks.add engine now db url title description user_id tags ≡ (
        ok (inserted db),
        record db { bookmarks = db.bookmarks ++ inserted db ∷ []; bookmark_tags = links },
      )
  unfolding Bookmarks.add
  add_done db tags links present done = rw (present, done) refl

  rolled :
      (before : Db) {b : Bookmark} {after : Db} {out : Result Bookmark × Db}
      → out ≡ (ok b, after)
      → or_rollback before out ≡ (ok b, after)
  unfolding or_rollback
  rolled before h = ap (or_rollback before) h

  -- A user of the table can store a bookmark with any distinct names.
  pub add_succeeds :
      (names : List Text) (db : Db)
      → IsValid db
      → has_id user_id (user_ids db.users) ≡ true
      → Laws.IsDistinct names
      → Added names db
  add_succeeds names db v present d =
      let us = (get_or_create engine names db).0 in
      let flushed = (get_or_create engine names db).1 in
      let r = get_or_create-Resolved engine casing names db v d in
      let b = inserted flushed in
      let free : (i : ℕ) → is_linked flushed.bookmark_tags b.id i ≡ false =
        λ i. unlinked flushed b.id i r.valid (engine.new_id-fresh (ids flushed.bookmarks)) in
      let come = insert_links_done b.id us flushed.bookmark_tags r.distinct (λ i k. free i) in
      let after : Db = record flushed {
        bookmarks = flushed.bookmarks ++ b ∷ [];
        bookmark_tags = come.after;
      } in
      let done =
        add_done flushed us come.after
          (subst (λ rows. has_id user_id (user_ids rows) ≡ true) (sym r.users) present) come.done in
      let (w, rows) = get_or_create-Writes engine names db in
      let (named, (users, bookmarks, links, (created, tags))) =
        get_or_create-Extends engine names db in
      record {
        bookmark = b;
        after = after;
        done = done;
        row = ap (λ rows. record (inserted db) { id = engine.new_id (ids rows) }) r.bookmarks;
        bookmarks = ap (λ rows. rows ++ b ∷ []) r.bookmarks;
        users = r.users;
        created = created;
        tags = tags;
        valid =
            Writes-IsValid
              (subst (λ (o : Result Bookmark × Db). Writes db o.1) (rolled db done)
                (or_rollback-Writes engine casing now user_id url title description db flushed us w
                  (All-map (IsRow-IsStored flushed) us rows)))
              v;
        tagged = record {
          named = λ name.
              tags_of-names flushed after b us name r.valid refl r.rows
                (λ i. ground (arith, come.linked b.id i, free i))
              ∙ ap (member name) r.named;
          others = λ i tag_id. elim (Bool-cases (i == b.id)) [
            | inl here ↦ inl (ground arith)
            | inr other ↦ inr (
                ground (arith, come.linked i tag_id)
                ∙ ap (λ links. is_linked links i tag_id) r.links)
          ];
        };
      }

  create_resolved :
      (raw : List RawTag) (names : List Text) (db : Db)
      → normalize_tags casing (some raw) ≡ ok names
      → create engine casing now db user_id url title description raw
        ≡ or_rollback db (
            Bookmarks.add engine now
              (get_or_create engine names db).1
              url
              title
              description
              user_id
              (get_or_create engine names db).0)
  unfolding create
  create_resolved raw names db h = rw (resolve_tags_done engine casing raw names db h, create) refl

  -- Where the tables keep their constraints, a creation for a user of the table, with tags that
  -- normalise, succeeds: the names of the new bookmark's tags are the normalised names, and other
  -- bookmarks keep their tags.
  pub create_succeeds :
      (raw : List RawTag) (names : List Text) (db : Db)
      → IsValid db
      → has_id user_id (user_ids db.users) ≡ true
      → normalize_tags casing (some raw) ≡ ok names
      → (b : Bookmark) × (after : Db) × (create engine casing now db user_id url title description
            raw
          ≡ (ok b, after))
        × Tagged names b db after
  create_succeeds raw names db v present h =
      let added =
        add_succeeds names db v present (normalize_tags-IsTag casing (some raw) names h).1 in
      (
        added.bookmark,
        added.after,
        create_resolved raw names db h ∙ rolled db added.done,
        added.tagged,
      )
