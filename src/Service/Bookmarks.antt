-- ===== src/Service/Bookmarks.antt =====
-- app/services/bookmark/service.py. A mutation reads the database once, `db`, and commits to what
-- the database is then, `db'`: other requests may have committed in between.
pub mod Guards
pub mod Updates
pub mod Locking
pub mod Versions
pub mod Refusals
pub mod Effects
pub mod Columns
pub mod Pages
pub mod Cursors
pub mod Creation
pub mod Deletion
use bookmarks_api.Prelude.{
  ℕ, ◌+◌, ◌-◌, ◌*◌, ◌/◌, min, max, Bool, true, false, Option, none, some, List, [], ◌∷◌, ◌==◌, ltb,
  take, length, if◌then◌else◌, select, ◌&&◌,
}
use bookmarks_api.Text.{Text, codes, is_empty, strip}
use bookmarks_api.Text.Casing.{Casing}
use bookmarks_api.Json.{Fields, num, text, end, field}
use bookmarks_api.Errors.{
  AppError, Headers, or_else, make_error, not_found_error, precondition_failed_error,
  precondition_required_error,
}
use bookmarks_api.Result.{
  Exception, Result, ok, raise, app, value_error, stale_version_error, ◌>>=◌,
}
use bookmarks_api.Etag.{make_etag, matches}
use bookmarks_api.Tags.{RawTag, normalize_tags}
use bookmarks_api.Models.{Tag, Bookmark, Db, Engine}
use bookmarks_api.Repository.Tags.{get_or_create}
use bookmarks_api.Repository.Queries.{
  BookmarkFilters, get_owned, is_linked, count, list_offset, list_keyset,
}
use bookmarks_api.Repository.Bookmarks

abbrev pub max_per_page : ℕ
max_per_page = 100

-- `_conflict`
unfoldable pub conflict : Option Text → AppError
conflict current_etag =
    make_error precondition_failed_error
      (codes
        "The bookmark was modified by another request. Re-fetch it and retry with the latest ETag.")
      (elim current_etag [
        | none ↦ none
        | some etag ↦ some (field (codes "expected") (text etag) end)
      ])
      (elim current_etag [ none ↦ none | some etag ↦ some ((codes "ETag", etag) ∷ []) ])

-- The 428 of a request with no `If-Match`.
unfoldable pub precondition_required : Text → AppError
precondition_required current_etag =
    make_error precondition_required_error
      (codes
        "This operation requires an 'If-Match' header with the bookmark's current ETag to prevent lost updates.")
      (some (
        field (codes "header") (text (codes "If-Match"))
          (field (codes "current") (text current_etag) end)))
      (some ((codes "ETag", current_etag) ∷ []))

-- `_check_precondition`
unfoldable pub check_precondition : Bookmark → Option Text → Result (Unit {0})
check_precondition bookmark none = raise (app (precondition_required (make_etag bookmark.version)))
check_precondition bookmark (some if_match) =
    if is_empty (strip if_match)
    then raise (app (precondition_required (make_etag bookmark.version)))
    else if matches if_match bookmark.version
    then ok tt
    else raise (app (conflict (some (make_etag bookmark.version))))

-- `_current_etag`
unfoldable pub current_etag : Db → ℕ → ℕ → Option Text
current_etag db user_id bookmark_id = elim (get_owned db user_id bookmark_id) [
  | none ↦ none
  | some current ↦ some (make_etag current.version)
]

unfoldable pub not_found : ℕ → AppError
not_found bookmark_id =
    make_error not_found_error (codes "Bookmark not found.")
      (some
        (field (codes "field") (text (codes "id")) (field (codes "value") (num bookmark_id) end)))
      none

-- `get`
unfoldable pub get : Db → ℕ → ℕ → Result Bookmark
get db user_id bookmark_id = elim (get_owned db user_id bookmark_id) [
  | none ↦ raise (app (not_found bookmark_id))
  | some bookmark ↦ ok bookmark
]

-- The dict `changes`: an absent key is `none`.
pub record Changes : Type 0 where
  pub url : Option Text
  pub title : Option Text
  pub description : Option (Option Text)
  pub tags : Option (List RawTag)

-- The assignments to the loaded object.
unfoldable pub assign : Changes → Bookmark → Bookmark
assign changes bookmark = record bookmark {
  url = or_else changes.url bookmark.url;
  title = or_else changes.title bookmark.title;
  description = or_else changes.description bookmark.description;
}

-- The tags that a bookmark is loaded with, in the order of the table.
unfoldable pub tags_of : Db → Bookmark → List Tag
tags_of db bookmark = select (λ (t : Tag). is_linked db.bookmark_tags bookmark.id t.id) db.tags

-- `except StaleVersionError`, for a commit that was rolled back
unfoldable pub or_conflict {ℓ} : {A : Type ℓ} → ℕ → ℕ → Result A × Db → Result A × Db
or_conflict user_id bookmark_id (raise stale_version_error, db) =
    (raise (app (conflict (current_etag db user_id bookmark_id))), db)
or_conflict user_id bookmark_id (r, db) = (r, db)

-- A request that ends by an exception which nobody catches: its transaction is not committed.
unfoldable pub or_rollback {ℓ} : {A : Type ℓ} → Db → Result A × Db → Result A × Db
or_rollback before (raise e, db) = (raise e, before)
or_rollback before (ok a, db) = (ok a, db)

-- The guards of a mutation: the bookmark is the user's, and `If-Match` names its version.
unfoldable pub load : Db → ℕ → ℕ → Option Text → Result Bookmark
load db user_id bookmark_id if_match = do
  bookmark ← get db user_id bookmark_id
  checked ← check_precondition bookmark if_match
  ok bookmark

module _ (engine : Engine) (casing : Casing) where
  -- `get_or_create(normalize(tags))`
  unfoldable pub resolve_tags : List RawTag → Db → Result (List Tag × Db)
  resolve_tags tags db = do
    names ← normalize_tags casing (some tags)
    ok (get_or_create engine names db)

  -- `create`
  unfoldable pub create :
      ℕ → Db → ℕ → Text → Text → Option Text → List RawTag → Result Bookmark × Db
  create now db user_id url title description tags = elim (resolve_tags tags db) [
    | raise e ↦ (raise e, db)
    | ok (tag_objs, flushed) ↦
        or_rollback db (Bookmarks.add engine now flushed url title description user_id tag_objs)
  ]

  -- `update`, behind its guards: `new_tags` is resolved first, then all is assigned and committed.
  unfoldable pub apply_changes : ℕ → Db → Db → ℕ → ℕ → Changes → Bookmark → Result Bookmark × Db
  apply_changes now db db' user_id bookmark_id changes bookmark = elim changes.tags [
    | none ↦
        or_conflict user_id bookmark_id (
          Bookmarks.update now db' db' bookmark (tags_of db bookmark) (assign changes bookmark)
            none)
    | some raw ↦ elim (resolve_tags raw db') [
      | raise e ↦ (raise e, db')
      | ok (new_tags, flushed) ↦ or_conflict user_id bookmark_id (
          Bookmarks.update now db' flushed bookmark (tags_of db bookmark) (assign changes bookmark)
            (some new_tags))
    ]
  ]

  -- `update`
  unfoldable pub update : ℕ → Db → Db → ℕ → ℕ → Changes → Option Text → Result Bookmark × Db
  update now db db' user_id bookmark_id changes if_match =
      elim (load db user_id bookmark_id if_match) [
        | raise e ↦ (raise e, db')
        | ok bookmark ↦ apply_changes now db db' user_id bookmark_id changes bookmark
      ]

-- `delete`
unfoldable pub delete : Db → Db → ℕ → ℕ → Option Text → Result (Unit {0}) × Db
delete db db' user_id bookmark_id if_match = elim (load db user_id bookmark_id if_match) [
  | raise e ↦ (raise e, db')
  | ok bookmark ↦
      or_conflict user_id bookmark_id (Bookmarks.delete db' bookmark (tags_of db bookmark))
]

-- The dict that `list` returns.
pub record Page : Type 0 where
  pub items : List Bookmark
  pub page : ℕ
  pub per_page : ℕ
  pub total : ℕ
  pub total_pages : ℕ
  pub has_next : Bool
  pub has_prev : Bool
  pub next_cursor : Option ℕ

-- `items[-1].id`, of a list that is not empty
unfoldable pub last_id : List Bookmark → Option ℕ
last_id [] = none
last_id (b ∷ []) = some b.id
last_id (b ∷ c ∷ bs) = last_id (c ∷ bs)

-- `math.ceil(total / per_page) if total else 0`
unfoldable pub pages_for : ℕ → ℕ → ℕ
pages_for total per_page = if total == 0 then 0 else (total + (per_page - 1)) / per_page

-- `max(1, min(per_page, MAX_PER_PAGE))`
unfoldable pub clamp_per_page : ℕ → ℕ
clamp_per_page per_page = max 1 (min per_page max_per_page)

module _ (engine : Engine) (casing : Casing) (db : Db) (user_id : ℕ)
    (filters : BookmarkFilters) where
  -- The branch of `list` with a cursor.
  unfoldable pub keyset_page : ℕ → ℕ → Page
  keyset_page per_page cursor =
      let total = count engine casing db user_id filters in
      let rows = list_keyset engine casing db user_id filters cursor (per_page + 1) in
      let has_more = ltb per_page (length rows) in
      let items = take per_page rows in
      record {
        items = items;
        page = 1;
        per_page = per_page;
        total = total;
        total_pages = pages_for total per_page;
        has_next = has_more;
        has_prev = false;
        next_cursor = if has_more then last_id items else none;
      }

  -- The branch of `list` without a cursor.
  unfoldable pub offset_page : ℕ → ℕ → Text → Page
  offset_page per_page page sort =
      let total = count engine casing db user_id filters in
      record {
        items = list_offset engine casing db user_id filters sort per_page ((page - 1) * per_page);
        page = page;
        per_page = per_page;
        total = total;
        total_pages = pages_for total per_page;
        has_next = ltb page (pages_for total per_page);
        has_prev = ltb 1 page;
        next_cursor = none;
      }

  -- `list`
  unfoldable pub list : ℕ → ℕ → Text → Option ℕ → Page
  unfolding keyset_page offset_page clamp_per_page
  list page per_page sort none = offset_page (clamp_per_page per_page) page sort
  list page per_page sort (some cursor) = keyset_page (clamp_per_page per_page) cursor
