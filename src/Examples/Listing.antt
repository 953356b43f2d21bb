-- ===== src/Examples/Listing.antt =====
-- The pages of a user with two bookmarks, and the tags of a request.
use bookmarks_api.Prelude.{max, min, ◌≤◌, arith, ◌≡◌, refl, none, length, select}
use bookmarks_api.Text.{codes}
use bookmarks_api.Text.Casing.{ascii}
use bookmarks_api.Models.{has_id}
use bookmarks_api.Repository.Queries.{
  BookmarkFilters, apply_filters, insert_row, join_rows, order_by, row_ok,
}
use bookmarks_api.Repository.Queries.Sorting.{below}
use bookmarks_api.Service.Bookmarks.{offset_page, pages_for}
use bookmarks_api.Service.Bookmarks.Pages.{IsKeyed, sorted_rows, first_pages, pages_tile}
use bookmarks_api.Service.Bookmarks.Cursors.{newest_first, crawl, crawl-pages_for}
use bookmarks_api.Routers.Bookmarks.Listing.{ListQuery, list_bookmarks}
use bookmarks_api.Routers.Bookmarks.Bounds.{list_bookmarks-le}
use bookmarks_api.Examples.{counting_engine, two_bookmarks}

abbrev no_filters : BookmarkFilters
no_filters = record { tag = none; q = none; date_from = none; date_to = none }

-- More rows than a page may hold.
abbrev whole_list : ListQuery
whole_list = record {
  filters = no_filters;
  page = 1;
  per_page = 500;
  sort = codes "title";
  cursor = none;
}

two_bookmarks-IsKeyed : IsKeyed two_bookmarks
unfolding has_id
two_bookmarks-IsKeyed = record { bookmarks = (refl, (refl, tt)); names = tt }

pages_tile_example :
    (first_pages counting_engine ascii two_bookmarks 7 no_filters 1
        (codes "title")
        (offset_page counting_engine ascii two_bookmarks 7 no_filters 1 1
          (codes "title")).total_pages
      ≡ sorted_rows counting_engine ascii two_bookmarks 7 no_filters (codes "title"))
    × ((offset_page counting_engine ascii two_bookmarks 7 no_filters 1 1 (codes "title")).total
        ≡ length (sorted_rows counting_engine ascii two_bookmarks 7 no_filters (codes "title")))
pages_tile_example =
    pages_tile counting_engine ascii two_bookmarks 7 no_filters 1 (codes "title")
      two_bookmarks-IsKeyed (omega arith)

crawl-pages_for_example :
    crawl counting_engine ascii two_bookmarks 7 no_filters 1 2 9
    ≡ below 9 (newest_first counting_engine ascii two_bookmarks 7 no_filters 1)
unfolding select order_by apply_filters row_ok join_rows insert_row pages_for
crawl-pages_for_example =
    crawl-pages_for counting_engine ascii two_bookmarks 7 no_filters 1 2 9 two_bookmarks-IsKeyed
      (omega arith) (omega arith) (omega arith)

list_bookmarks-le_example :
    ((list_bookmarks counting_engine ascii two_bookmarks 7 whole_list).pagination.per_page
      ≡ max 1 (min 500 100))
    × (length (list_bookmarks counting_engine ascii two_bookmarks 7 whole_list).items
        ≤ max 1 (min 500 100))
list_bookmarks-le_example = list_bookmarks-le counting_engine ascii two_bookmarks 7 whole_list
