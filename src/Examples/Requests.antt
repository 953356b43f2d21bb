-- ===== src/Examples/Requests.antt =====
-- Settings, headers, passwords and bookmarks of single requests.
use bookmarks_api.Repository.Tags.{get_or_create}
use bookmarks_api.Repository.Queries.{is_linked, get_owned}
use bookmarks_api.Prelude.{◌≡◌, refl, none, some, [], ◌∷◌, find, select}
use bookmarks_api.Text.{
  codes, str, split, is_empty, strip, rstrip, lstrip, is_space, push_head, text_eq, digits,
}
use bookmarks_api.Text.Casing.{ascii}
use bookmarks_api.Json.{null}
use bookmarks_api.Result.{ok}
use bookmarks_api.Tags.{normalize_tags}
use bookmarks_api.Models.{Bookmark, User, Db, has_id}
use bookmarks_api.Config.{Settings}
use bookmarks_api.Middleware.{Response}
use bookmarks_api.Schemas.{RegisterRequest, tag_names}
use bookmarks_api.Etag.{make_etag, matches, matches_any}
use bookmarks_api.Service.Bookmarks
use bookmarks_api.Repository.Bookmarks.{
  add as rows_add, update as rows_update, new_links, update_rows, insert_links,
}
use bookmarks_api.Service.Bookmarks.{
  create, load, update, check_precondition, apply_changes, tags_of, or_conflict, or_rollback,
  resolve_tags, assign,
}
use bookmarks_api.Service.Bookmarks.Locking.{HasKeys}
use bookmarks_api.Schemas.Out.{BookmarkOut, bookmark_out, by_name}
use bookmarks_api.Routers.Bookmarks.{
  BookmarkUpdate, update_bookmark, get_bookmark, changes_of, with_etag,
}
use bookmarks_api.Routers.Bookmarks.Laws.{update_bookmark-get}
use bookmarks_api.Examples.{
  counting_engine, first_bookmark, second_bookmark, renamed_bookmark, two_bookmarks, renamed_db,
  largest,
}

abbrev production : Settings
production = record {
  environment = codes "Production";
  database_url = codes "sqlite://";
  jwt_secret = codes "secret";
  cors_origins = codes "a,b";
  trusted_hosts = codes "*";
}

abbrev plain_response : Response
plain_response = record {
  status_code = 200;
  headers = (codes "x-frame-options", codes "SAMEORIGIN") ∷ [];
  content = null;
}

abbrev weak_request : RegisterRequest
weak_request = record {
  username = codes "alice";
  email = codes "al@a.example";
  password = codes "my-Alice-pass";
}

keys : HasKeys two_bookmarks
unfolding has_id
keys = (refl, (refl, tt))

abbrev rename_only : BookmarkUpdate
rename_only = record {
  url = some none;
  title = some (some (codes "New"));
  description = none;
  tags = none;
}

abbrev renamed_out : BookmarkOut
renamed_out = record {
  id = 1;
  url = renamed_bookmark.url;
  title = renamed_bookmark.title;
  description = renamed_bookmark.description;
  tags = [];
  created_at = renamed_bookmark.created_at;
  updated_at = renamed_bookmark.updated_at;
  version = 4;
}

rename_runs :
    update_bookmark counting_engine ascii 20 two_bookmarks two_bookmarks 7 1 rename_only
      (some (codes "*"))
    ≡ (ok (renamed_out, make_etag 4), renamed_db)
unfolding update_bookmark changes_of with_etag update load Bookmarks.get get_owned find
    check_precondition is_empty strip rstrip lstrip codes is_space matches matches_any split
    push_head text_eq str digits make_etag apply_changes tags_of select is_linked or_conflict
    rows_update new_links update_rows assign bookmark_out by_name tag_names
rename_runs = refl

update_bookmark-get_example :
    (get_bookmark counting_engine renamed_db 7 1 ≡ ok (renamed_out, make_etag 4))
    × ((b : Bookmark) × (load renamed_db 7 1 (some (make_etag 4)) ≡ ok b))
update_bookmark-get_example =
    update_bookmark-get counting_engine ascii 20 two_bookmarks renamed_db 7 1 rename_only
      (some (codes "*")) renamed_out (make_etag 4) keys rename_runs

abbrev owner : User
owner = record { id = 7; username = []; email = []; password_hash = []; created_at = 0 }

abbrev before_create : Db
before_create = record two_bookmarks { users = owner ∷ [] }

abbrev third_bookmark : Bookmark
third_bookmark = record {
  id = 3;
  url = codes "u";
  title = codes "t";
  description = none;
  user_id = 7;
  created_at = 9;
  updated_at = 9;
  version = 1;
}

abbrev after_create : Db
after_create = record before_create {
  bookmarks = first_bookmark ∷ second_bookmark ∷ third_bookmark ∷ [];
}

create_runs :
    create counting_engine ascii 9 before_create 7 (codes "u") (codes "t") none []
    ≡ (ok third_bookmark, after_create)
unfolding create resolve_tags normalize_tags or_rollback rows_add has_id get_or_create insert_links
    codes largest
create_runs = refl
