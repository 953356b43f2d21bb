-- ===== src/Lib.antt =====
-- A model of the bookmarks API: a web service in which users keep bookmarks with tags, behind
-- optimistic locking by entity tags, a login guard and one format of error responses.
--
-- Parts, and the files that model them (paths from the root of the repository):
-- * Text, Text/*: Python strings as lists of code points, with the string methods that the program
--   calls. `str.lower` is the parameter `Casing`, with the two laws the program relies on.
-- * Dict, Json, Result: dictionaries in order of insertion, JSON values, and calls that raise.
-- * Errors (app/core/errors.py): the error classes, the envelope, and the exception handlers.
-- * Etag (app/utils/etag/etag.py): `make_etag` and `matches`.
-- * Tags (app/utils/tags/normalizer.py): `normalize_tags`.
-- * LoginGuard (app/utils/login_guard/guard.py): the failure counter with lockout. Times are whole
--   microseconds, and each call is one step, since a mutex guards it.
-- * Models (app/models): the tables as lists of rows in the record `Db`.
-- * Search (app/repositories/bookmark/repository.py): the LIKE pattern of a keyword, and LIKE with
--   the escape character, case-sensitive.
-- * Repository/Users, Repository/Tags, Repository/Queries, Repository/Bookmarks (app/repositories):
--   the queries and writes. `Engine` stands for what the database does by itself: keys of new rows,
--   the SQL function `lower` and the collation of texts.
-- * Service/Bookmarks (app/services/bookmark/service.py): the service over these. A mutation takes
--   two databases: `db`, which it reads, and `db'`, which it commits to after other requests; a
--   commit that fails rolls back.
-- * Service/Auth (app/services/auth/service.py): registration and login, on the database and the
--   login guard.
-- * Repository/Stats (app/repositories/stats/repository.py): the counts of a user's bookmarks.
-- * Security (app/utils/security/token.py): access tokens; the libraries for tokens and for password
--   hashes are the parameters `Jwt` and `Hasher`.
-- * Authentication (app/core/deps.py): `get_current_user`.
-- * Config (app/config.py), Middleware (app/core/middleware.py), RateLimit (app/core/rate_limit.py),
--   Schemas (app/schemas), Routers/Bookmarks (app/routers/bookmarks.py): the settings' check and
--   lists, the three middlewares, the key of a request, the validators, and the handlers.
--   Routers/Bookmarks/Listing models the page that a listing answers with, and Routers/Auth
--   (app/routers/auth.py) the handlers of registration and login, with the validator of the body.
--   Routers/Stats (app/routers/stats.py) is the handler of the counts, behind the user's token.
-- * Application (app/main.py): the middlewares in the order of their registration, around any
--   routes. Those of other packages are the parameter `Framework`.
-- * Migrations (alembic/versions): the revisions as operations on a schema, and the schema that
--   app/models declares.
-- * Seed (scripts/seed.py): the sample data and the script that stores it.
-- * Integrity (app/models): the constraints of the tables, the writes that keep them, and the
--   databases that any sequence of requests can reach.
-- * Tagging (app/services/bookmark/service.py): requests that assign tags, over tables that keep
--   these constraints.
-- * Store (app/services/bookmark/interface.py): the bookmarks as a function of their keys, the moves
--   that a user may make on it, and the requests as such moves.
-- * The files below Examples: the concrete inputs on which the theorems are applied.
--
-- Bounds and fuel: `crawl`, the client that follows the cursors, is on fuel, and as many requests
-- as there are pages are enough. `digits` of Text is on fuel that its argument gives. All other
-- recursion is structural.
--
-- Not modelled: column lengths; the race of two requests that create the same tag, since a request
-- looks its tags up in the state that it commits to, where the unique index on their names cannot
-- fail; the refresh of a row after its commit, and what can raise after a registration's commit, so
-- that no theorem speaks of a request that fails after its commit; what a migration does with the
-- rows of a table; the dispatch of a path to its route; and what the web framework and the
-- object-relational mapper do beyond these operations.
pub mod Prelude
pub mod Text
pub mod Dict
pub mod Json
pub mod Errors
pub mod Result
pub mod Etag
pub mod Tags
pub mod LoginGuard
pub mod Models
pub mod Search
pub mod Repository
pub mod Config
pub mod Middleware
pub mod Security
pub mod Authentication
pub mod RateLimit
pub mod Schemas
pub mod Service
pub mod Integrity
pub mod Tagging
pub mod Seed
pub mod Store
pub mod Application
pub mod Migrations
pub mod Routers
pub mod Examples
