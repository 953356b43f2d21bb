-- ===== src/Routers/Bookmarks/Listing.antt =====
-- The page that `list_bookmarks` of app/routers/bookmarks.py answers with.
use bookmarks_api.Prelude.{ℕ, Bool, Option, List, map}
use bookmarks_api.Text.{Text}
use bookmarks_api.Text.Casing.{Casing}
use bookmarks_api.Models.{Db, Engine}
use bookmarks_api.Repository.Queries.{BookmarkFilters}
use bookmarks_api.Schemas.Out.{BookmarkOut, bookmark_out}
use bookmarks_api.Service.Bookmarks.{Page}
use bookmarks_api.Service.Bookmarks

pub record PageMeta : Type 0 where
  pub page : ℕ
  pub per_page : ℕ
  pub total : ℕ
  pub total_pages : ℕ
  pub has_next : Bool
  pub has_prev : Bool
  pub next_cursor : Option ℕ

pub record BookmarkPage : Type 0 where
  pub items : List BookmarkOut
  pub pagination : PageMeta

-- The query of a listing, behind its checks; a field that was left out has its default.
pub record ListQuery : Type 0 where
  pub filters : BookmarkFilters
  pub page : ℕ
  pub per_page : ℕ
  pub sort : Text
  pub cursor : Option ℕ

module _ (engine : Engine) where
  -- `_to_page`
  unfoldable pub to_page : Db → Page → BookmarkPage
  unfolding bookmark_out
  to_page db result = record {
    items = map (bookmark_out engine db) result.items;
    pagination = record {
      page = result.page;
      per_page = result.per_page;
      total = result.total;
      total_pages = result.total_pages;
      has_next = result.has_next;
      has_prev = result.has_prev;
      next_cursor = result.next_cursor;
    };
  }

  -- `list_bookmarks`
  unfoldable pub list_bookmarks : Casing → Db → ℕ → ListQuery → BookmarkPage
  unfolding to_page
  list_bookmarks casing db user_id query = to_page db (
      Bookmarks.list engine casing db user_id query.filters query.page query.per_page query.sort
        query.cursor)
