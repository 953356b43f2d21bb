-- ===== src/Schemas/Out.antt =====
-- app/schemas/bookmark.py: a bookmark as the responses show it, with the tags that app/models loads.
use bookmarks_api.Prelude.{ℕ, Option, some, List, [], ◌∷◌, if◌then◌else◌}
use bookmarks_api.Text.{Text}
use bookmarks_api.Models.{Tag, Bookmark, Db, Engine}
use bookmarks_api.Schemas.{tag_names}
use bookmarks_api.Service.Bookmarks.{tags_of}

pub record BookmarkOut : Type 0 where
  pub id : ℕ
  pub url : Text
  pub title : Text
  pub description : Option Text
  pub tags : List Text
  pub created_at : ℕ
  pub updated_at : ℕ
  pub version : ℕ

module _ (engine : Engine) where
  -- `order_by="Tag.name"` of the relationship `tags`
  unfoldable pub insert_tag : Tag → List Tag → List Tag
  insert_tag t [] = t ∷ []
  insert_tag t (u ∷ us) =
      let rest = insert_tag t us in
      if engine.text_before t.name u.name then t ∷ u ∷ us else u ∷ rest

  unfoldable pub by_name : List Tag → List Tag
  unfolding insert_tag
  by_name [] = []
  by_name (t ∷ ts) = insert_tag t (by_name ts)

  -- `BookmarkOut.model_validate` of a row with its tags
  unfoldable pub bookmark_out : Db → Bookmark → BookmarkOut
  unfolding by_name
  bookmark_out db b = record {
    id = b.id;
    url = b.url;
    title = b.title;
    description = b.description;
    tags = tag_names (some (by_name (tags_of db b)));
    created_at = b.created_at;
    updated_at = b.updated_at;
    version = b.version;
  }
