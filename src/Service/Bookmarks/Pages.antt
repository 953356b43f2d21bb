-- ===== src/Service/Bookmarks/Pages.antt =====
-- On the offset branch of `list` in app/services/bookmark/service.py.
pub mod Slices
use bookmarks_api.Prelude.{
  ℕ, zero, suc, ◌+◌, ◌-◌, ◌*◌, ◌≤◌, ◌<◌, ◌≡◌, refl, sym, ap, ap₂, subst, ◌∙◌, Bool, true, false,
  Option, none, some, List, [], ◌∷◌, ◌++◌, arith, length, take, drop, ltb, if◌then◌else◌,
  Bool-cases, inl, inr,
}
use bookmarks_api.Text.{Text}
use bookmarks_api.Text.Casing.{Casing}
use bookmarks_api.Models.{Bookmark, Db, Engine}
use bookmarks_api.Repository.Queries.{
  BookmarkFilters, apply_filters, order_by, sort_before, id_desc, unique, count, list_offset,
  list_keyset,
}
use bookmarks_api.Repository.Queries.Joins.{HasNames, apply_filters-IsDistinct}
use bookmarks_api.Repository.Queries.Sorting.{
  below, IsDescending, order_by-IsDistinct, length-order_by, unique_lem, take-IsDistinct,
  drop-IsDistinct, order_by-below, order_by-IsDescending,
}
use bookmarks_api.Repository.Bookmarks.Rows.{ids, IsDistinct}
use bookmarks_api.Service.Bookmarks.{Page, last_id, keyset_page, offset_page, pages_for}
use bookmarks_api.Service.Bookmarks.Pages.Slices.{
  take-add, take_all, pages_for_bounds, descending-IsDistinct, IsDescending-below, below-below,
  last_id-take, below-last_id,
}

-- The keys of the tables that the queries rely on.
pub record IsKeyed (db : Db) : Type 0 where
  pub bookmarks : IsDistinct (ids db.bookmarks)
  pub names : HasNames db.tags

zero_pages : (p : ℕ) → 0 ≡ 0 * p
zero_pages p = omega arith

take_none {ℓ} : {A : Type ℓ} (p : ℕ) (xs : List A) → [] ≡ take (0 * p) xs
take_none p xs = ap (λ k. take k xs) (zero_pages p)

page_offset : (n p : ℕ) → (suc n - 1) * p ≡ n * p
page_offset n p = ap (λ m. m * p) (omega arith)

next_page : (n p : ℕ) → n * p + p ≡ suc n * p
next_page n p = omega arith

module _ (engine : Engine) (casing : Casing) (db : Db) (user_id : ℕ)
    (filters : BookmarkFilters) where
  abbrev pub rows_of : List Bookmark
  rows_of = apply_filters engine casing db user_id filters

  -- The rows in the order of `sort`.
  abbrev pub sorted_rows : Text → List Bookmark
  sorted_rows sort = order_by (sort_before engine sort) rows_of

  pub rows-IsDistinct : IsKeyed db → IsDistinct (ids rows_of)
  rows-IsDistinct k = apply_filters-IsDistinct engine casing db user_id filters k.names k.bookmarks

  count-length : IsKeyed db → count engine casing db user_id filters ≡ length rows_of
  unfolding count
  count-length k = ap length (unique_lem rows_of (rows-IsDistinct k))

  offset_items :
      (per_page page : ℕ) (sort : Text)
      → IsKeyed db
      → (offset_page engine casing db user_id filters per_page page sort).items
        ≡ take per_page (drop ((page - 1) * per_page) (sorted_rows sort))
  unfolding offset_page list_offset
  offset_items per_page page sort k =
      unique_lem (take per_page (drop ((page - 1) * per_page) (sorted_rows sort))) (
        take-IsDistinct per_page (drop ((page - 1) * per_page) (sorted_rows sort)) (
          drop-IsDistinct ((page - 1) * per_page) (sorted_rows sort)
            (order_by-IsDistinct (sort_before engine sort) rows_of (rows-IsDistinct k))))

  -- The items of the pages 1 to n, in this order.
  abbrev pub first_pages : ℕ → Text → ℕ → List Bookmark
  first_pages per_page sort zero = []
  first_pages per_page sort (suc n) =
      first_pages per_page sort n
      ++ (offset_page engine casing db user_id filters per_page (suc n) sort).items

  first_pages-take :
      (per_page : ℕ) (sort : Text) (n : ℕ)
      → IsKeyed db
      → first_pages per_page sort n ≡ take (n * per_page) (sorted_rows sort)
  first_pages-take per_page sort zero k = take_none per_page (sorted_rows sort)
  first_pages-take per_page sort (suc n) k =
      ap₂ ◌++◌ (first_pages-take per_page sort n k) (
        offset_items per_page (suc n) sort k
        ∙ ap (λ o. take per_page (drop o (sorted_rows sort))) (page_offset n per_page))
      ∙ take-add (n * per_page) per_page (sorted_rows sort)
      ∙ ap (λ m. take m (sorted_rows sort)) (next_page n per_page)

  -- The pages from the first to the last, as `total_pages` counts them, hold the filtered rows in the
  -- order of `sort`, each once, and `total` is their number.
  pub pages_tile :
      (per_page : ℕ) (sort : Text)
      → IsKeyed db
      → 0 < per_page
      → (first_pages per_page sort
            (offset_page engine casing db user_id filters per_page 1 sort).total_pages
          ≡ sorted_rows sort)
        × ((offset_page engine casing db user_id filters per_page 1 sort).total
            ≡ length (sorted_rows sort))
  unfolding offset_page
  pages_tile per_page sort k h =
      let total = length (sorted_rows sort) in
      let counted = count-length k ∙ sym (length-order_by (sort_before engine sort) rows_of) in
      let pages = (offset_page engine casing db user_id filters per_page 1 sort).total_pages in
      let enough : total ≤ pages * per_page =
        subst (λ t. t ≤ pages * per_page) counted
          (pages_for_bounds (count engine casing db user_id filters) per_page h).0 in
      (
        first_pages-take per_page sort pages k
            ∙ take_all (pages * per_page) (sorted_rows sort) enough,
        counted,
      )
