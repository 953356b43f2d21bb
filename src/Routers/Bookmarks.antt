-- ===== src/Routers/Bookmarks.antt =====
-- app/routers/bookmarks.py: the handlers, for a user that is authenticated. A response is the
-- bookmark with the names of its tags, and its `ETag` header; the validation library also checks the
-- query of a listing.
pub mod Laws
pub mod Listing
pub mod Bounds
use bookmarks_api.Prelude.{ℕ, Option, none, some, List, map}
use bookmarks_api.Text.{Text}
use bookmarks_api.Text.Casing.{Casing}
use bookmarks_api.Etag.{make_etag}
use bookmarks_api.Tags.{RawTag, string}
use bookmarks_api.Models.{Bookmark, Db, Engine}
use bookmarks_api.Result.{Result, ok, raise, ◌>>=◌}
use bookmarks_api.Service.Bookmarks
use bookmarks_api.Service.Bookmarks.{Changes, create, get}
use bookmarks_api.Schemas.Out.{BookmarkOut, bookmark_out}

-- A `BookmarkCreate` behind its validators.
pub record BookmarkCreate : Type 0 where
  pub url : Text
  pub title : Text
  pub description : Option Text
  pub tags : List Text

-- A `BookmarkUpdate` behind its validators: a field that is not set is `none`, and one that is set to
-- null is `some none`.
pub record BookmarkUpdate : Type 0 where
  pub url : Option (Option Text)
  pub title : Option (Option Text)
  pub description : Option (Option Text)
  pub tags : Option (Option (List Text))

-- `"…" in fields and payload.… is not None`
abbrev pub set_value {ℓ} : {A : Type ℓ} → Option (Option A) → Option A
set_value none = none
set_value (some none) = none
set_value (some (some a)) = some a

abbrev pub raw_tags : Option (List Text) → Option (List RawTag)
raw_tags none = none
raw_tags (some names) = some (map string names)

-- The dict `changes` of `update_bookmark`.
unfoldable pub changes_of : BookmarkUpdate → Changes
changes_of payload = record {
  url = set_value payload.url;
  title = set_value payload.title;
  description = payload.description;
  tags = raw_tags (set_value payload.tags);
}

-- The response with its `ETag`.
unfoldable pub with_etag : Engine → Db → Result Bookmark → Result (BookmarkOut × Text)
with_etag engine db (ok bookmark) = ok (bookmark_out engine db bookmark, make_etag bookmark.version)
with_etag engine db (raise e) = raise e

module _ (engine : Engine) (casing : Casing) where
  -- `create_bookmark`
  unfoldable pub create_bookmark : ℕ → Db → ℕ → BookmarkCreate → Result (BookmarkOut × Text) × Db
  unfolding with_etag
  create_bookmark now db user_id payload =
      let out =
        create engine casing now db user_id payload.url payload.title payload.description
          (map string payload.tags) in
      (with_etag engine out.1 out.0, out.1)

  -- `update_bookmark`
  unfoldable pub update_bookmark :
      ℕ → Db → Db → ℕ → ℕ → BookmarkUpdate → Option Text → Result (BookmarkOut × Text) × Db
  unfolding with_etag changes_of
  update_bookmark now db db' user_id bookmark_id payload if_match =
      let out =
        Bookmarks.update engine casing now db db' user_id bookmark_id (changes_of payload)
          if_match in
      (with_etag engine out.1 out.0, out.1)

-- `get_bookmark`
unfoldable pub get_bookmark : Engine → Db → ℕ → ℕ → Result (BookmarkOut × Text)
unfolding with_etag
get_bookmark engine db user_id bookmark_id = with_etag engine db (get db user_id bookmark_id)

-- `delete_bookmark`, whose 204 has no body
unfoldable pub delete_bookmark : Db → Db → ℕ → ℕ → Option Text → Result (Unit {0}) × Db
delete_bookmark db db' user_id bookmark_id if_match =
    Bookmarks.delete db db' user_id bookmark_id if_match
