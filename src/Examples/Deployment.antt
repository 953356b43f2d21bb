-- ===== src/Examples/Deployment.antt =====
-- The sample data, the migrations, the middlewares and a registration over HTTP.
use bookmarks_api.Prelude.{
  ◌≡◌, refl, sym, ap, ◌∙◌, Bool-cases, true, false, Option, none, some, inl, inr, [], ◌∷◌, arith,
  find,
}
use bookmarks_api.Text.{
  Text, codes, text_eq, text_eq_iff, is_empty, is_space, lstrip, rstrip, strip, starts_with, str,
  contains, split,
}
use bookmarks_api.Text.Casing.{ascii, ascii_lower}
use bookmarks_api.Dict.{get, put, get-put}
use bookmarks_api.Json.{null}
use bookmarks_api.Tags.{member}
use bookmarks_api.Models.{User, empty_db}
use bookmarks_api.Result.{ok}
use bookmarks_api.Middleware.{Response}
use bookmarks_api.Seed.{reset, seed}
use bookmarks_api.Seed.Laws.{Seeded, seed-Seeded}
use bookmarks_api.Migrations.{
  Schema, run, find_table, find_index, is_referenced, refers_to, indexes_without,
}
use bookmarks_api.Migrations.Revisions.{upgrades, downgrades}
use bookmarks_api.Migrations.Laws.{IsFresh, with_models, run-upgrades, run-downgrades}
use bookmarks_api.Application.{
  HttpRequest, Handler, is_cors_header, Framework, AppSettings, on_response, status_of, header_of,
  answer,
}
use bookmarks_api.Application.Laws.{inner}
use bookmarks_api.Schemas.{RegisterRequest, password_strength, embeds, tokens_of, local_part}
use bookmarks_api.Security.{TokenProvider, create_access_token}
use bookmarks_api.Service.Auth
use bookmarks_api.Repository.Users.{get_by_email, get_by_username, add}
use bookmarks_api.Routers.Auth.{auth_response, register_route}
use bookmarks_api.Routers.Auth.Tokens.{SignedUp, register_route-SignedUp}
use bookmarks_api.Examples.{counting_engine, two_bookmarks, largest}
use bookmarks_api.Examples.Libraries.{plain_jwt, plain_hasher}

seed-Seeded_example :
    Seeded counting_engine plain_hasher 1 2 3 4
      (seed counting_engine plain_hasher 1 2 3 4 true two_bookmarks)
unfolding reset
seed-Seeded_example = seed-Seeded counting_engine plain_hasher 1 2 3 4 true two_bookmarks refl

-- The table in which the migration tool keeps the revision.
abbrev bare_schema : Schema
bare_schema = record {
  tables =
      record { name = codes "alembic_version"; columns = []; primary_key = []; foreign_keys = [] }
      ∷ [];
  indexes = [];
}

bare_schema-IsFresh : IsFresh bare_schema
unfolding find_table find_index is_referenced refers_to indexes_without text_eq codes
bare_schema-IsFresh = record {
  users = (refl, refl, refl);
  tags = (refl, refl, refl);
  bookmarks = (refl, refl, refl);
  bookmark_tags = (refl, refl, refl);
  username = refl;
  email = refl;
  name = refl;
  user_id = refl;
  created_at = refl;
  user_created = refl;
}

run-upgrades_example : run upgrades bare_schema ≡ some (with_models bare_schema)
run-upgrades_example = run-upgrades bare_schema bare_schema-IsFresh

run-downgrades_example : run downgrades (with_models bare_schema) ≡ some bare_schema
run-downgrades_example = run-downgrades bare_schema bare_schema-IsFresh

-- A framework that allows any origin and that serves the hosts of its list.
abbrev open_header : Text
open_header = codes "access-control-allow-origin"

open_is_cors : is_cors_header open_header ≡ true
unfolding is_cors_header codes starts_with text_eq
open_is_cors = refl

apart : false ≡ true → ⊥
apart h = cc

open_headers :
    (response : Response) (name : Text)
    → is_cors_header name ≡ false
    → get name (put open_header (codes "*") response.headers) ≡ get name response.headers
open_headers response name own = elim (Bool-cases (text_eq open_header name)) [
  | inl same ↦ absurd (
      apart
        (sym own ∙ ap is_cors_header (sym ((text_eq_iff open_header name).0 same)) ∙ open_is_cors))
  | inr other ↦ get-put open_header name (codes "*") response.headers ∙ rw other refl
]

abbrev opened : Response → Response
opened response = record response { headers = put open_header (codes "*") response.headers }

opened_status : (o : Option Response) → status_of (on_response opened o) ≡ status_of o
opened_status none = refl
opened_status (some response) = refl

opened_header :
    (o : Option Response) (name : Text)
    → is_cors_header name ≡ false
    → header_of name (on_response opened o) ≡ header_of name o
opened_header none name own = refl
opened_header (some response) name own = ap some (open_headers response name own)

plain_framework : Framework
plain_framework = record {
  cors = λ origins credentials next request. on_response opened (next request);
  cors_status = λ origins credentials next request h. opened_status (next request);
  cors_headers =
      λ origins credentials next request name h own. opened_header (next request) name own;
  trusted_host = λ hosts next request. next request;
  is_allowed = λ hosts host. member host hosts;
  trusted_host_passes = λ hosts next request h. refl;
  slow_api = λ next. next;
}

abbrev app_settings : AppSettings
app_settings = record {
  lists = record {
    environment = codes "test";
    database_url = codes "sqlite://";
    jwt_secret = codes "s";
    cors_origins = codes "*";
    trusted_hosts = codes "a.example";
  };
  app_name = codes "Bookmarks";
  docs_enabled = true;
  security_headers_enabled = true;
  hsts_enabled = true;
  max_request_bytes = 100;
  cors_allow_credentials = false;
}

abbrev ok_routes : Handler
ok_routes request = some (record { status_code = 200; headers = []; content = null })

abbrev sized_request : HttpRequest
sized_request = record {
  host = codes "a.example";
  is_preflight = false;
  request_id = some (codes "r1");
  fresh_id = codes "f1";
  content_length = some (codes "7");
  state_id = none;
}

abbrev served : Response
served = answer plain_framework app_settings ok_routes sized_request

abbrev seen : HttpRequest → Option Response
seen = inner plain_framework app_settings ok_routes

abbrev hourly : TokenProvider
hourly = record { secret = codes "s"; algorithm = codes "HS256"; expires_minutes = 60 }

abbrev eve : User
eve = record {
  id = 1;
  username = codes "eve";
  email = codes "e@f";
  password_hash = codes "pw";
  created_at = 5;
}

abbrev sign_up : RegisterRequest
sign_up = record { username = codes "eve"; email = codes "e@f"; password = codes "pw" }

abbrev token_of_eve : Text
token_of_eve = create_access_token plain_jwt hourly 5 (codes "j") 1 none

eve_registers :
    register_route counting_engine ascii plain_jwt plain_hasher hourly 5 0
      (codes "j")
      empty_db
      empty_db
      sign_up
    ≡ (ok (auth_response eve token_of_eve), record empty_db { users = eve ∷ [] })
unfolding register_route password_strength embeds tokens_of local_part member text_eq codes
    ascii_lower contains starts_with is_empty split Auth.register get_by_email find get_by_username
    add strip rstrip lstrip is_space create_access_token str largest auth_response
eve_registers = refl

register_route-SignedUp_example :
    (password_strength ascii sign_up ≡ ok sign_up)
    × SignedUp counting_engine ascii plain_jwt plain_hasher hourly 5 0 6
        (codes "j")
        empty_db
        empty_db
        (codes "eve")
        (codes "e@f")
        (codes "pw")
        (auth_response eve token_of_eve)
        (record empty_db { users = eve ∷ [] })
register_route-SignedUp_example =
    register_route-SignedUp counting_engine ascii plain_jwt plain_hasher hourly 5 0 6 (codes "j")
      empty_db empty_db sign_up (auth_response eve token_of_eve)
      (record empty_db { users = eve ∷ [] }) eve_registers (omega arith) (omega arith)
