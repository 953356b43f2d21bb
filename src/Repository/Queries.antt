-- ===== src/Repository/Queries.antt =====
-- The reads of app/repositories/bookmark/repository.py.
pub mod Joins
pub mod Sorting
use bookmarks_api.Prelude.{
  ℕ, ◌+◌, ◌*◌, Bool, true, false, not, ◌&&◌, ◌||◌, Option, none, some, List, [], ◌∷◌, ◌++◌, map,
  find, select, take, drop, length, ltb, leb, ◌==◌, if◌then◌else◌,
}
use bookmarks_api.Text.{Text, codes, text_eq, is_empty, strip, starts_with}
use bookmarks_api.Text.Casing.{Casing}
use bookmarks_api.Models.{Tag, Bookmark, Link, Db, Engine}
use bookmarks_api.Search.{like, like_pattern}

-- `BookmarkFilters`; a date is its number of days.
pub record BookmarkFilters : Type 0 where
  pub tag : Option Text
  pub q : Option Text
  pub date_from : Option ℕ
  pub date_to : Option ℕ

abbrev pub microseconds_per_day : ℕ
microseconds_per_day = 86400000000

-- `if value:` of an optional text: neither absent nor empty
abbrev pub given : Option Text → Option Text
given none = none
given (some s) = if is_empty s then none else some s

-- `get_owned`
unfoldable pub get_owned : Db → ℕ → ℕ → Option Bookmark
get_owned db user_id bookmark_id =
    find (λ b. b.id == bookmark_id && b.user_id == user_id) db.bookmarks

-- Whether the join of bookmarks and tags has a row for both.
unfoldable pub is_linked : List Link → ℕ → ℕ → Bool
is_linked [] bookmark_id tag_id = false
is_linked (l ∷ links) bookmark_id tag_id =
    l.bookmark_id == bookmark_id && l.tag_id == tag_id || is_linked links bookmark_id tag_id

-- `created_at >= start`
unfoldable pub from_ok : Option ℕ → ℕ → Bool
from_ok none created_at = true
from_ok (some day) created_at = leb (day * microseconds_per_day) created_at

-- `created_at <= end`, the last microsecond of the day
unfoldable pub to_ok : Option ℕ → ℕ → Bool
to_ok none created_at = true
to_ok (some day) created_at = leb created_at (day * microseconds_per_day + 86399999999)

module _ (engine : Engine) (casing : Casing) where
  -- `lower(title) LIKE … OR lower(description) LIKE …`; a null description matches nothing.
  unfoldable pub keyword_ok : Option Text → Bookmark → Bool
  keyword_ok none b = true
  keyword_ok (some q) b =
      like (engine.sql_lower b.title) (like_pattern casing q) || (elim b.description [
        | none ↦ false
        | some description ↦ like (engine.sql_lower description) (like_pattern casing q)
      ])

  -- The rows of `bookmarks JOIN tags` for one bookmark, and the bookmark itself without a filter by
  -- tag.
  unfoldable pub join_rows : Db → Option Text → Bookmark → List Bookmark
  join_rows db none b = b ∷ []
  join_rows db (some tag) b =
      map (λ (t : Tag). b)
        (select
          (λ (t : Tag).
            is_linked db.bookmark_tags b.id t.id && text_eq t.name (casing.lower (strip tag)))
          db.tags)

  -- The conditions on the bookmark alone.
  unfoldable pub row_ok : ℕ → BookmarkFilters → Bookmark → Bool
  unfolding keyword_ok from_ok to_ok
  row_ok user_id filters b =
      b.user_id == user_id
      && keyword_ok (given filters.q) b
      && from_ok filters.date_from b.created_at
      && to_ok filters.date_to b.created_at

  -- `_apply_filters`: the rows of the query, before an order is put on them.
  filter_rows : Db → ℕ → BookmarkFilters → List Bookmark → List Bookmark
  filter_rows db user_id filters [] = []
  filter_rows db user_id filters (b ∷ bs) =
      let rest = filter_rows db user_id filters bs in
      if row_ok user_id filters b then join_rows db (given filters.tag) b ++ rest else rest

  unfoldable pub apply_filters : Db → ℕ → BookmarkFilters → List Bookmark
  unfolding filter_rows
  apply_filters db user_id filters = filter_rows db user_id filters db.bookmarks

-- `.unique()`, and `count(distinct id)`: the first row of each bookmark
unfoldable pub unique : List Bookmark → List Bookmark
unique [] = []
unique (b ∷ bs) = b ∷ select (λ (c : Bookmark). not (c.id == b.id)) (unique bs)

-- `ORDER BY`, for a test that a row may stand before another
unfoldable pub insert_row : (Bookmark → Bookmark → Bool) → Bookmark → List Bookmark → List Bookmark
insert_row before b [] = b ∷ []
insert_row before b (c ∷ cs) =
    let rest = insert_row before b cs in if before b c then b ∷ c ∷ cs else c ∷ rest

unfoldable pub order_by : (Bookmark → Bookmark → Bool) → List Bookmark → List Bookmark
order_by before [] = []
order_by before (b ∷ bs) = insert_row before b (order_by before bs)

-- `Bookmark.id.desc()`
abbrev pub id_desc : Bookmark → Bookmark → Bool
id_desc b c = leb c.id b.id

-- The columns of `_SORT_FIELDS`.
pub data SortField : Type 0 where
  created_at updated_at title id : SortField

-- `_SORT_FIELDS.get(field, Bookmark.created_at)`
unfoldable pub sort_field : Text → SortField
sort_field name =
    if text_eq name (codes "updated_at")
    then updated_at
    else if text_eq name (codes "title")
    then title
    else if text_eq name (codes "id")
    then id
    else created_at

-- `sort.lstrip("-")`
unfoldable pub strip_dashes : Text → Text
strip_dashes [] = []
strip_dashes (c ∷ s) = let rest = strip_dashes s in if c == b'-' then rest else c ∷ s

module _ (engine : Engine) where
  -- The ascending order of a column.
  unfoldable pub column_before : SortField → Bookmark → Bookmark → Bool
  column_before created_at b c = leb b.created_at c.created_at
  column_before updated_at b c = leb b.updated_at c.updated_at
  column_before title b c = engine.text_before b.title c.title
  column_before id b c = leb b.id c.id

  -- `order_by(direction(column), Bookmark.id.desc())`
  unfoldable pub sort_before : Text → Bookmark → Bookmark → Bool
  unfolding column_before sort_field strip_dashes
  sort_before sort b c =
      let field = sort_field (strip_dashes sort) in
      let descending = starts_with (b'-' ∷ []) sort in
      let forth = if descending then column_before field c b else column_before field b c in
      let back = if descending then column_before field b c else column_before field c b in
      forth && (if back then id_desc b c else true)

module _ (engine : Engine) (casing : Casing) where
  -- `count`
  unfoldable pub count : Db → ℕ → BookmarkFilters → ℕ
  count db user_id filters = length (unique (apply_filters engine casing db user_id filters))

  -- `list_offset`
  unfoldable pub list_offset : Db → ℕ → BookmarkFilters → Text → ℕ → ℕ → List Bookmark
  list_offset db user_id filters sort limit offset = unique (
      take limit (
        drop offset
          (order_by (sort_before engine sort) (apply_filters engine casing db user_id filters))))

  -- `list_keyset`
  unfoldable pub list_keyset : Db → ℕ → BookmarkFilters → ℕ → ℕ → List Bookmark
  list_keyset db user_id filters cursor limit = unique (
      take limit (
        order_by id_desc (
          select (λ (b : Bookmark). ltb b.id cursor)
            (apply_filters engine casing db user_id filters))))
