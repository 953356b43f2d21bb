-- ===== src/Examples/Bookmarks.antt =====
-- Two requests that rename the first of two bookmarks.
use bookmarks_api.Prelude.{◌≡◌, refl, some, find, select, ◌∷◌, []}
use bookmarks_api.Text.{
  Text, codes, is_empty, is_space, lstrip, rstrip, split, starts_with, str, strip, text_eq,
  push_head, digits,
}
use bookmarks_api.Text.Casing.{ascii}
use bookmarks_api.Etag.{make_etag, matches, matches_any, quotes}
use bookmarks_api.Models.{Bookmark, Db, has_id}
use bookmarks_api.Repository.Bookmarks
use bookmarks_api.Result.{ok}
use bookmarks_api.Repository.Queries.{get_owned, is_linked}
use bookmarks_api.Repository.Bookmarks.{update_rows, new_links, update_row, delete_links}
use bookmarks_api.Service.Bookmarks.{
  assign, update, load, get, check_precondition, apply_changes, tags_of, or_conflict, delete,
}
use bookmarks_api.Service.Bookmarks.Locking.{HasKeys}
use bookmarks_api.Service.Bookmarks.Refusals.{
  etag_header, Refusal, Guarded, mutations-Guarded, old_etag-Refusal,
}
use bookmarks_api.Service.Bookmarks.Effects.{requested, Rewritten, update-Rewritten}
use bookmarks_api.Service.Bookmarks.Deletion.{Deleted, delete-Deleted}
use bookmarks_api.Examples.{
  counting_engine, first_bookmark, renamed_bookmark, two_bookmarks, renamed_db, rename,
  second_bookmark,
}

abbrev etag_three : Text
etag_three = codes "\"3\""

two_bookmarks-HasKeys : HasKeys two_bookmarks
unfolding has_id
two_bookmarks-HasKeys = (refl, (refl, tt))

first_rename :
    update counting_engine ascii 20 two_bookmarks two_bookmarks 7 1 rename (some etag_three)
    ≡ (ok renamed_bookmark, renamed_db)
unfolding update load get get_owned find check_precondition is_empty strip rstrip lstrip codes
    is_space matches matches_any quotes split push_head text_eq starts_with str digits apply_changes
    tags_of select is_linked or_conflict Bookmarks.update new_links update_rows assign
first_rename = refl

old_etag-Refusal_example :
    Refusal 412
      (etag_header 4)
      renamed_db
      (update counting_engine ascii 30 renamed_db renamed_db 7 1 rename (some (make_etag 3)))
    × Refusal 412 (etag_header 4) renamed_db (delete renamed_db renamed_db 7 1 (some (make_etag 3)))
unfolding get_owned find
old_etag-Refusal_example =
    old_etag-Refusal counting_engine ascii 7 1 20 30 two_bookmarks renamed_db rename rename
      (some etag_three) first_bookmark renamed_bookmark two_bookmarks-HasKeys refl first_rename

mutations-Guarded_example :
    Guarded two_bookmarks renamed_db 7 1
      (some etag_three)
      (update counting_engine ascii 30 two_bookmarks renamed_db 7 1 rename (some etag_three))
    × Guarded two_bookmarks renamed_db 7 1
        (some etag_three)
        (delete two_bookmarks renamed_db 7 1 (some etag_three))
mutations-Guarded_example =
    mutations-Guarded counting_engine ascii 7 1 30 two_bookmarks renamed_db rename (some etag_three)

update-Rewritten_example :
    Rewritten 7 1
      (requested 20 rename first_bookmark)
      two_bookmarks
      (update counting_engine ascii 20 two_bookmarks two_bookmarks 7 1 rename (some etag_three))
unfolding get_owned find is_empty strip rstrip lstrip codes is_space matches split text_eq
    starts_with str
update-Rewritten_example =
    update-Rewritten counting_engine ascii 20 two_bookmarks 7 1 rename etag_three first_bookmark
      two_bookmarks-HasKeys refl refl refl refl

abbrev after_delete : Db
after_delete = record two_bookmarks { bookmarks = second_bookmark ∷ [] }

delete_runs : delete two_bookmarks two_bookmarks 7 1 (some etag_three) ≡ (ok tt, after_delete)
unfolding delete load get get_owned find check_precondition is_empty strip rstrip lstrip codes
    is_space matches matches_any quotes split push_head text_eq starts_with str digits tags_of
    select is_linked or_conflict Bookmarks.delete delete_links
delete_runs = refl

delete-Deleted_example :
    (old : Bookmark) × (get_owned two_bookmarks 7 1 ≡ some old)
    × Deleted 1 two_bookmarks after_delete
delete-Deleted_example =
    delete-Deleted two_bookmarks two_bookmarks after_delete 7 1 (some etag_three)
      two_bookmarks-HasKeys delete_runs
