-- ===== src/Examples/Databases.antt =====
-- Requests on a database with users, bookmarks and tags.
use bookmarks_api.Prelude.{◌≡◌, refl, none, some, [], ◌∷◌, arith, find, select}
use bookmarks_api.Text.{
  codes, text_eq, is_empty, is_space, lstrip, rstrip, strip, split, starts_with, str, push_head,
  digits,
}
use bookmarks_api.Text.Casing.{ascii, ascii_lower}
use bookmarks_api.Etag.{matches, matches_any, quotes}
use bookmarks_api.Tags.{string, member, normalize_tags}
use bookmarks_api.Models.{User, Bookmark, Db, empty_db, has_id}
use bookmarks_api.Result.{Exception, ok, raise}
use bookmarks_api.Repository.Queries.{get_owned, is_linked}
use bookmarks_api.Repository.Bookmarks.{update_rows, new_links}
use bookmarks_api.Repository.Bookmarks
use bookmarks_api.Service.Auth.{register}
use bookmarks_api.Service.Bookmarks.{
  Changes, assign, create, update, delete, load, get, check_precondition, apply_changes, tags_of,
  or_conflict,
}
use bookmarks_api.Service.Bookmarks.Columns.{changed}
use bookmarks_api.Integrity.{IsValid}
use bookmarks_api.Integrity.Reach.{start, registers, creates, Reach-IsValid}
use bookmarks_api.Tagging.Reading.{Tagged}
use bookmarks_api.Tagging.Creation.{create_succeeds}
use bookmarks_api.Tagging.Update.{update_succeeds}
use bookmarks_api.Store.{view, Move, Request}
use bookmarks_api.Store
use bookmarks_api.Store.Refinement.{Request-Move}
use bookmarks_api.Store.Overlap.{Meanwhile, none_yet, one_more, overlapping_raises}
use bookmarks_api.Store.Isolation.{IsKept-refl, Request-get_owned}
use bookmarks_api.Repository.Stats.{
  get_stats, rows_of, tagged, tag_groups, sort_groups, insert_group, more_first,
}
use bookmarks_api.Repository.Stats.Report.{Report}
use bookmarks_api.Security.{TokenProvider}
use bookmarks_api.Examples.{
  counting_engine, first_bookmark, second_bookmark, renamed_bookmark, two_bookmarks, rename,
}
use bookmarks_api.Examples.Libraries.{plain_jwt, plain_hasher}

abbrev hourly : TokenProvider
hourly = record { secret = codes "s"; algorithm = codes "HS256"; expires_minutes = 60 }

abbrev carl : User
carl = record {
  id = 7;
  username = codes "carl";
  email = codes "c@d";
  password_hash = codes "pw";
  created_at = 1;
}

abbrev dora : User
dora = record carl { id = 8; username = codes "dora"; email = codes "d@e" }

-- The first bookmark bears the tag `web`.
abbrev tagged_db : Db
tagged_db = record two_bookmarks {
  users = carl ∷ dora ∷ [];
  tags = record { id = 1; name = codes "web" } ∷ [];
  bookmark_tags = record { bookmark_id = 1; tag_id = 1 } ∷ [];
}

tagged_db-IsValid : IsValid tagged_db
unfolding has_id find text_eq codes member is_linked
tagged_db-IsValid = record {
  users = (refl, (refl, tt));
  accounts = (refl, (refl, tt));
  tags = (refl, tt);
  names = (refl, tt);
  bookmarks = (refl, (refl, tt));
  owned = ((refl, omega arith), ((refl, omega arith), tt));
  pairs = (refl, tt);
  attached = ((refl, refl), tt);
}

abbrev after_register : Db
after_register =
    (register counting_engine ascii plain_jwt plain_hasher hourly 5 0 (codes "j") empty_db empty_db
      (codes "carl") (codes "c@d") (codes "pw")).1

Reach-IsValid_example :
    IsValid
      (create counting_engine ascii 9 after_register 1
        (codes "u")
        (codes "t")
        none
        (string (codes "web") ∷ [])).1
Reach-IsValid_example = Reach-IsValid counting_engine ascii plain_jwt plain_hasher hourly (
    creates 9 1 (codes "u") (codes "t") none (string (codes "web") ∷ [])
      (registers 5 0 (codes "j") empty_db (codes "carl") (codes "c@d") (codes "pw") start))

create_succeeds_example :
    (b : Bookmark) × (after : Db) × (create counting_engine ascii 9 tagged_db 7
        (codes "u")
        (codes "t")
        none
        (string (codes " New") ∷ string (codes "WEB") ∷ [])
      ≡ (ok b, after))
    × Tagged (codes "new" ∷ codes "web" ∷ []) b tagged_db after
unfolding has_id normalize_tags is_empty ascii_lower strip rstrip lstrip codes is_space member
    text_eq
create_succeeds_example =
    create_succeeds counting_engine ascii 9 7 (codes "u") (codes "t") none
      (string (codes " New") ∷ string (codes "WEB") ∷ []) (codes "new" ∷ codes "web" ∷ []) tagged_db
      tagged_db-IsValid refl refl

abbrev retag : Changes
retag = record {
  url = none;
  title = none;
  description = none;
  tags = some (string (codes "New ") ∷ []);
}

update_succeeds_example :
    (after : Db) × (update counting_engine ascii 20 tagged_db tagged_db 7 1 retag
        (some (codes "\"3\""))
      ≡ (ok (changed 20 retag first_bookmark), after))
    × (after.bookmarks
        ≡ update_rows 20 first_bookmark (assign retag first_bookmark) tagged_db.bookmarks)
    × Tagged (codes "new" ∷ []) first_bookmark tagged_db after
unfolding get_owned find is_empty strip rstrip lstrip codes is_space matches split text_eq
    starts_with str normalize_tags ascii_lower member
update_succeeds_example =
    update_succeeds counting_engine ascii 20 tagged_db 7 1 retag (codes "\"3\"") first_bookmark
      (string (codes "New ") ∷ []) (codes "new" ∷ []) tagged_db-IsValid refl refl refl refl refl

Request-Move_example :
    Move 7 (view tagged_db) (view (delete tagged_db tagged_db 7 1 (some (codes "\"3\""))).1)
Request-Move_example =
    Request-Move counting_engine ascii plain_jwt plain_hasher hourly 7 tagged_db
      ((delete tagged_db tagged_db 7 1 (some (codes "\"3\""))).1) tagged_db-IsValid.bookmarks
      (Store.deletes tagged_db 1 (some (codes "\"3\""))
        (IsKept-refl 7 tagged_db tagged_db-IsValid.bookmarks))

Request-get_owned_example :
    get_owned
      (create counting_engine ascii 9 tagged_db 8
        (codes "u")
        (codes "t")
        none
        (string (codes "web") ∷ [])).1
      7
      1
    ≡ get_owned tagged_db 7 1
Request-get_owned_example =
    Request-get_owned counting_engine ascii plain_jwt plain_hasher hourly 8 7 1 tagged_db
      ((create counting_engine ascii 9 tagged_db 8 (codes "u") (codes "t") none
        (string (codes "web") ∷ [])).1)
      tagged_db-IsValid (λ e. absurd (omega arith))
      (Store.creates 9 (codes "u") (codes "t") none (string (codes "web") ∷ []))

-- The user renames the first bookmark; then another user stores one, and the first user's second
-- tab asks for what it has read before both.
abbrev renamed_tagged : Db
renamed_tagged = record tagged_db { bookmarks = renamed_bookmark ∷ second_bookmark ∷ [] }

tagged_rename :
    update counting_engine ascii 20 tagged_db tagged_db 7 1 rename (some (codes "\"3\""))
    ≡ (ok renamed_bookmark, renamed_tagged)
unfolding update load get get_owned find check_precondition is_empty strip rstrip lstrip codes
    is_space matches matches_any quotes split push_head text_eq starts_with str digits apply_changes
    tags_of select is_linked or_conflict Bookmarks.update new_links update_rows assign
tagged_rename = refl

abbrev then_created : Db
then_created = (create counting_engine ascii 9 renamed_tagged 8 (codes "u") (codes "t") none []).1

create_between :
    Meanwhile counting_engine ascii plain_jwt plain_hasher hourly 1 renamed_tagged then_created
unfolding Store.view_rows find
create_between =
    one_more 8 none_yet (Store.creates 9 (codes "u") (codes "t") none []) (λ h. absurd (there h))
  where
    there : {b : Bookmark} → some b ≡ none → ⊥
    there h = cc

overlapping_raises_example :
    ((e : Exception) × (update counting_engine ascii 30 tagged_db then_created 7 1 rename
          (some (codes "*"))
        ≡ (raise e, then_created)))
    × ((e : Exception) × (delete tagged_db then_created 7 1 (some (codes "*"))
          ≡ (raise e, then_created)))
overlapping_raises_example =
    overlapping_raises counting_engine ascii plain_jwt plain_hasher hourly 1 7 20 30 tagged_db
      tagged_db renamed_tagged then_created rename rename (some (codes "\"3\"")) (some (codes "*"))
      renamed_bookmark tagged_db-IsValid tagged_rename create_between

-- Both bookmarks bear `sql`, the first also `web`, and none `old`.
abbrev stats_db : Db
stats_db = record tagged_db {
  tags =
      record { id = 1; name = codes "web" }
      ∷ record { id = 2; name = codes "old" }
      ∷ record { id = 3; name = codes "sql" }
      ∷ [];
  bookmark_tags =
      record { bookmark_id = 1; tag_id = 1 }
      ∷ record { bookmark_id = 1; tag_id = 3 }
      ∷ record { bookmark_id = 2; tag_id = 3 }
      ∷ [];
}

stats_runs :
    (get_stats counting_engine (λ t. codes "1970-01") stats_db 7).top_tags
    ≡ record { name = codes "sql"; count = 2 } ∷ record { name = codes "web"; count = 1 } ∷ []
unfolding get_stats rows_of tagged tag_groups sort_groups insert_group more_first is_linked select
stats_runs = refl
