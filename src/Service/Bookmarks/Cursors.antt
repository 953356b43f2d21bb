-- ===== src/Service/Bookmarks/Cursors.antt =====
-- On the keyset branch of `list` in app/services/bookmark/service.py, and a client that follows
-- `next_cursor`.
use bookmarks_api.Prelude.{
  ℕ, zero, suc, ◌+◌, ◌*◌, ◌≤◌, ◌<◌, ◌≡◌, sym, ap, ap₂, ◌∙◌, true, false, none, some, List, [], ◌∷◌,
  ◌++◌, arith, length, length-take, length-drop, take-append-drop, All, take, drop, ltb,
  if◌then◌else◌, Bool-cases, inl, inr,
}
use bookmarks_api.Text.Casing.{Casing}
use bookmarks_api.Models.{Bookmark, Db, Engine}
use bookmarks_api.Repository.Queries.{BookmarkFilters, order_by, id_desc, unique, list_keyset}
use bookmarks_api.Repository.Queries.Sorting.{
  below, IsDescending, unique_lem, order_by-below, order_by-IsDescending,
}
use bookmarks_api.Service.Bookmarks.{Page, last_id, keyset_page, pages_for}
use bookmarks_api.Service.Bookmarks.Pages.{IsKeyed, rows_of, rows-IsDistinct}
use bookmarks_api.Service.Bookmarks.Pages.Slices.{
  pages_for_bounds, take_all, take-take, descending-IsDistinct, IsDescending-below,
  IsDescending-take, below-below, below-All, last_id-take, below-last_id,
}

is_longer : (p : ℕ) (bs : List Bookmark) → ltb p (length (take (suc p) bs)) ≡ ltb p (length bs)
is_longer p bs = ground (arith, length-take (suc p) bs)

module _ (engine : Engine) (casing : Casing) (db : Db) (user_id : ℕ) (filters : BookmarkFilters)
    (per_page : ℕ) where
  -- The filtered rows, the newest key first.
  abbrev pub newest_first : List Bookmark
  newest_first = order_by id_desc (rows_of engine casing db user_id filters)

  abbrev page_at : ℕ → Page
  page_at = keyset_page engine casing db user_id filters per_page

  -- What a client collects that follows the cursors for at most `fuel` pages.
  pub crawl : ℕ → ℕ → List Bookmark
  crawl zero cursor = []
  crawl (suc fuel) cursor = elim (page_at cursor).next_cursor [
    | none ↦ (page_at cursor).items
    | some next ↦ (page_at cursor).items ++ crawl fuel next
  ]

  sorted-IsDescending : IsKeyed db → IsDescending newest_first
  sorted-IsDescending k =
      order_by-IsDescending (rows_of engine casing db user_id filters)
        (rows-IsDistinct engine casing db user_id filters k)

  keyset_rows :
      (cursor limit : ℕ)
      → IsKeyed db
      → list_keyset engine casing db user_id filters cursor limit
        ≡ take limit (below cursor newest_first)
  unfolding list_keyset
  keyset_rows cursor limit k =
      ap (λ rows. unique (take limit rows))
        (order_by-below cursor (rows_of engine casing db user_id filters))
      ∙ unique_lem (take limit (below cursor newest_first)) (
          descending-IsDistinct (take limit (below cursor newest_first)) (
            IsDescending-take limit (below cursor newest_first)
              (IsDescending-below cursor newest_first (sorted-IsDescending k))))

  page_items :
      (cursor : ℕ)
      → IsKeyed db
      → ((page_at cursor).items ≡ take per_page (below cursor newest_first))
        × ((page_at cursor).next_cursor ≡ (
            if ltb per_page (length (below cursor newest_first))
            then last_id (take per_page (below cursor newest_first))
            else none))
  unfolding keyset_page
  page_items cursor k =
      let found = list_keyset engine casing db user_id filters cursor (per_page + 1) in
      let rest = below cursor newest_first in
      let rows : found ≡ take (suc per_page) rest =
        keyset_rows cursor (per_page + 1) k
        ∙ ap (λ n. take n rest) {y = suc per_page} (omega arith) in
      let items : take per_page found ≡ take per_page rest =
        ap (take per_page) rows ∙ take-take per_page rest in
      (
        items,
        ap₂ (λ more is. if more then last_id is else none)
            (ap (λ bs. ltb per_page (length bs)) rows ∙ is_longer per_page rest) items,
      )

  step_last :
      (fuel cursor : ℕ)
      → IsKeyed db
      → ltb per_page (length (below cursor newest_first)) ≡ false
      → crawl (suc fuel) cursor ≡ below cursor newest_first
  unfolding crawl
  step_last fuel cursor k short =
      let (items, next) = page_items cursor k in
      let ended : (page_at cursor).next_cursor ≡ none = rw short at next in
      rw (ended, crawl) (items ∙ take_all per_page (below cursor newest_first) (ground arith))

  step_more :
      (fuel cursor next : ℕ)
      → IsKeyed db
      → ltb per_page (length (below cursor newest_first)) ≡ true
      → last_id (take per_page (below cursor newest_first)) ≡ some next
      → crawl (suc fuel) cursor ≡ take per_page (below cursor newest_first) ++ crawl fuel next
  unfolding crawl
  step_more fuel cursor next k long last =
      let (items, following) = page_items cursor k in
      let goes_on : (page_at cursor).next_cursor ≡ some next = (rw long at following) ∙ last in
      rw (goes_on, crawl) (ap (λ is. is ++ crawl fuel next) items)

mul-le : (m n p : ℕ) → m ≤ n → m * p ≤ n * p
mul-le m n zero h = omega arith
mul-le m n (suc p) h = omega (arith, mul-le m n p h)

lt-mul : (m n p : ℕ) → 0 < p → m < n → m ≤ n * p
lt-mul m n zero h lt = absurd (omega arith)
lt-mul m n (suc p) h lt = omega arith

-- A page that is followed by another is not empty, and what is below its last key is what is left.
data Split (n cursor : ℕ) (rest : List Bookmark) : Type 0 where
  split :
      (next : ℕ)
      → last_id (take n rest) ≡ some next
      → below next rest ≡ drop n rest
      → next ≤ cursor
      → Split n cursor rest

split_rest :
    (n cursor : ℕ) (rest : List Bookmark)
    → 0 < n
    → n < length rest
    → IsDescending rest
    → All (λ (b : Bookmark). b.id < cursor) rest
    → Split n cursor rest
split_rest zero cursor rest h l d a = absurd (omega arith)
split_rest (suc n) cursor [] h l d a = absurd (omega arith)
split_rest (suc n) cursor (b ∷ bs) h l d a =
    let (i, last, le) = last_id-take n b bs d in
    split i last (below-last_id n i (b ∷ bs) d last) (omega arith)

module _ (engine : Engine) (casing : Casing) (db : Db) (user_id : ℕ) (filters : BookmarkFilters)
    (per_page : ℕ) where
  abbrev all_rows : List Bookmark
  all_rows = newest_first engine casing db user_id filters per_page

  abbrev crawl_from : ℕ → ℕ → List Bookmark
  crawl_from = crawl engine casing db user_id filters per_page

  fewer :
      (fuel cursor : ℕ) (rest : List Bookmark)
      → below cursor all_rows ≡ drop per_page rest
      → 0 < per_page
      → per_page < length rest
      → length rest ≤ suc fuel * per_page
      → (0 < fuel) × (length (below cursor all_rows) ≤ fuel * per_page)
  fewer zero cursor rest e p l enough = absurd (omega arith)
  fewer (suc fuel) cursor rest e p l enough =
      (omega arith, omega (arith, ap length e, length-drop per_page rest))

  step_split :
      (fuel cursor : ℕ)
      → IsKeyed db
      → 0 < per_page
      → length (below cursor all_rows) ≤ suc fuel * per_page
      → ltb per_page (length (below cursor all_rows)) ≡ true
      → ((next : ℕ)
          → (0 < fuel) × (length (below next all_rows) ≤ fuel * per_page)
          → crawl_from fuel next ≡ below next all_rows)
      → Split per_page cursor (below cursor all_rows)
      → crawl_from (suc fuel) cursor ≡ below cursor all_rows
  step_split fuel cursor k p enough long ih (split next last left le) =
      let rest = below cursor all_rows in
      let same : below next all_rows ≡ drop per_page rest =
        sym (below-below next cursor all_rows le) ∙ left in
      step_more engine casing db user_id filters per_page fuel cursor next k long last
      ∙ ap (λ is. take per_page rest ++ is)
          (ih next (fewer fuel next rest same p (ground arith) enough) ∙ same)
      ∙ take-append-drop per_page rest

  -- With pages of at least one row the client needs no more requests than there are pages of
  -- rows below the first cursor, and one where there are none.
  pub crawl_within :
      (fuel cursor : ℕ)
      → IsKeyed db
      → 0 < per_page
      → 0 < fuel
      → length (below cursor (newest_first engine casing db user_id filters per_page))
        ≤ fuel * per_page
      → crawl engine casing db user_id filters per_page fuel cursor
        ≡ below cursor (newest_first engine casing db user_id filters per_page)
  crawl_within zero cursor k p f enough = absurd (omega arith)
  crawl_within (suc fuel) cursor k p f enough =
      let newest = newest_first engine casing db user_id filters per_page in
      let rest = below cursor newest in
      elim (Bool-cases (ltb per_page (length rest))) [
        | inr short ↦ step_last engine casing db user_id filters per_page fuel cursor k short
        | inl long ↦
            step_split fuel cursor k p enough long (λ next h. crawl_within fuel next k p h.0 h.1)
              (split_rest per_page cursor rest p (ground arith)
                (IsDescending-below cursor newest
                  (sorted-IsDescending engine casing db user_id filters per_page k))
                (below-All cursor newest))
      ]

  -- With pages of at least one row and enough fuel, following the cursors returns the caller's
  -- filtered rows below the first cursor, newest key first: each once, none left out.
  pub crawl_lem :
      (fuel cursor : ℕ)
      → IsKeyed db
      → 0 < per_page
      → length (below cursor (newest_first engine casing db user_id filters per_page)) < fuel
      → crawl engine casing db user_id filters per_page fuel cursor
        ≡ below cursor (newest_first engine casing db user_id filters per_page)
  crawl_lem fuel cursor k p enough =
      crawl_within fuel cursor k p (omega arith)
        (lt-mul (length (below cursor all_rows)) fuel per_page p enough)

  -- With pages of at least one row, a client that follows the cursors is done after as many
  -- requests as the rows below the first cursor have pages, or one where there are none: it then
  -- has these rows, newest key first, each once and none left out, and more requests add nothing.
  pub crawl-pages_for :
      (fuel cursor : ℕ)
      → IsKeyed db
      → 0 < per_page
      → 0 < fuel
      → pages_for
          (length (below cursor (newest_first engine casing db user_id filters per_page)))
          per_page
        ≤ fuel
      → crawl engine casing db user_id filters per_page fuel cursor
        ≡ below cursor (newest_first engine casing db user_id filters per_page)
  crawl-pages_for fuel cursor k p f enough =
      let n = length (below cursor all_rows) in
      crawl_within fuel cursor k p f (
        omega (
          arith,
          (pages_for_bounds n per_page p).0,
          mul-le (pages_for n per_page) fuel per_page enough,
        ))
