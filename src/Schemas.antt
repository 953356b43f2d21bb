-- ===== src/Schemas.antt =====
-- app/schemas: the validators that are code of the program. The constraints of single fields, such
-- as lengths and patterns, are those of the validation library and are not modelled.
pub mod Laws
pub mod Out
use bookmarks_api.Prelude.{
  ℕ, Bool, true, false, ◌&&◌, Option, none, some, List, [], ◌∷◌, leb, length, map, if◌then◌else◌,
}
use bookmarks_api.Text.{Text, codes, split, contains}
use bookmarks_api.Text.Casing.{Casing}
use bookmarks_api.Tags.{RawTag, string, member, normalize_tags}
use bookmarks_api.Models.{Tag}
use bookmarks_api.Result.{Result, ok, raise, value_error, ◌>>=◌}

-- `_COMMON_PASSWORDS`
abbrev pub common_passwords : List Text
common_passwords =
    codes "password"
    ∷ codes "password1"
    ∷ codes "password123"
    ∷ codes "12345678"
    ∷ codes "123456789"
    ∷ codes "qwertyuiop"
    ∷ codes "qwerty123"
    ∷ codes "letmein1"
    ∷ codes "iloveyou"
    ∷ codes "admin123"
    ∷ codes "welcome1"
    ∷ codes "changeme"
    ∷ []

-- The fields of `RegisterRequest`.
pub record RegisterRequest : Type 0 where
  pub username : Text
  pub email : Text
  pub password : Text

-- `email.split("@", 1)[0]`, the text before the first `@`
unfoldable pub local_part : List Text → Text
local_part [] = []
local_part (part ∷ parts) = part

-- `len(token) >= 3 and token in low` for some token
unfoldable pub embeds : List Text → Text → Bool
embeds [] low = false
embeds (token ∷ tokens) low =
    let rest = embeds tokens low in
    if leb 3 (length token) && contains token low then true else rest

unfoldable pub tokens_of : Casing → RegisterRequest → List Text
unfolding local_part
tokens_of casing request =
    casing.lower request.username ∷ casing.lower (local_part (split b'@' request.email)) ∷ []

-- `_password_strength`
unfoldable pub password_strength : Casing → RegisterRequest → Result RegisterRequest
unfolding tokens_of embeds
password_strength casing request =
    let low = casing.lower request.password in
    if member low common_passwords
    then raise (value_error (codes "This password is too common; choose a less guessable one."))
    else if embeds (tokens_of casing request) low
    then raise (value_error (codes "Password must not contain your username or email."))
    else ok request

-- `BookmarkCreate._normalize`
unfoldable pub normalize_create : Casing → List RawTag → Result (List Text)
normalize_create casing value = normalize_tags casing (some value)

-- `BookmarkUpdate._normalize`
unfoldable pub normalize_update : Casing → Option (List RawTag) → Result (Option (List Text))
normalize_update casing none = ok none
normalize_update casing (some value) = do
  names ← normalize_tags casing (some value)
  ok (some names)

-- `BookmarkOut._tag_names`, of a list of `Tag` objects
unfoldable pub tag_names : Option (List Tag) → List Text
tag_names none = []
tag_names (some tags) = map (λ (t : Tag). t.name) tags
