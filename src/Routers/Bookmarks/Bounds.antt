-- ===== src/Routers/Bookmarks/Bounds.antt =====
-- On `list_bookmarks` of app/routers/bookmarks.py: the size of a page.
use bookmarks_api.Prelude.{
  ℕ, ◌≤◌, ◌≡◌, refl, not, Option, none, some, List, [], ◌∷◌, arith, length, length-take,
  length-select-le, length-map, take, min, max, ◌==◌,
}
use bookmarks_api.Text.{Text}
use bookmarks_api.Text.Casing.{Casing}
use bookmarks_api.Models.{Bookmark, Db, Engine}
use bookmarks_api.Repository.Queries.{BookmarkFilters, unique, list_offset}
use bookmarks_api.Service.Bookmarks.{Page, clamp_per_page, keyset_page, offset_page}
use bookmarks_api.Service.Bookmarks
use bookmarks_api.Schemas.Out.{bookmark_out}
use bookmarks_api.Routers.Bookmarks.Listing.{ListQuery, to_page, list_bookmarks}

length-unique-le : (bs : List Bookmark) → length (unique bs) ≤ length bs
unfolding unique
length-unique-le [] = omega arith
length-unique-le (b ∷ bs) = omega (
  arith,
  length-unique-le bs,
  length-select-le (λ (c : Bookmark). not (c.id == b.id)) (unique bs),
)

-- At most `n` bookmarks on a page that says it holds `n`.
abbrev IsWithin : Page → ℕ → Type 0
IsWithin page n = (page.per_page ≡ n) × (length page.items ≤ n)

length-unique_take : (n : ℕ) (bs : List Bookmark) → length (unique (take n bs)) ≤ n
length-unique_take n bs = omega (arith, length-unique-le (take n bs), length-take n bs)

length-take-le : (n : ℕ) (bs : List Bookmark) → length (take n bs) ≤ n
length-take-le n bs = omega (arith, length-take n bs)

module _ (engine : Engine) (casing : Casing) (db : Db) (user_id : ℕ) where
  list-IsWithin :
      (filters : BookmarkFilters) (page per_page : ℕ) (sort : Text) (cursor : Option ℕ)
      → IsWithin
          (Bookmarks.list engine casing db user_id filters page per_page sort cursor)
          (clamp_per_page per_page)
  unfolding Bookmarks.list offset_page keyset_page list_offset
  list-IsWithin filters page per_page sort none =
      (refl, length-unique_take (clamp_per_page per_page) _)
  list-IsWithin filters page per_page sort (some cursor) =
      (refl, length-take-le (clamp_per_page per_page) _)

  -- Whatever a listing asks for, its page is announced to hold as many bookmarks as asked for,
  -- brought between 1 and 100, and does not hold more.
  pub list_bookmarks-le :
      (query : ListQuery)
      → ((list_bookmarks engine casing db user_id query).pagination.per_page
          ≡ max 1 (min query.per_page 100))
        × (length (list_bookmarks engine casing db user_id query).items
            ≤ max 1 (min query.per_page 100))
  unfolding list_bookmarks to_page clamp_per_page
  list_bookmarks-le query =
      let result =
        Bookmarks.list engine casing db user_id query.filters query.page query.per_page query.sort
          query.cursor in
      let (same, few) =
        list-IsWithin query.filters query.page query.per_page query.sort query.cursor in
      (same, omega (arith, few, length-map (bookmark_out engine db) result.items))
