-- ===== src/Config.antt =====
-- app/config.py: the lists of the settings, and the check that refuses a weak secret.
pub mod Laws
use bookmarks_api.Prelude.{
  ℕ, Bool, true, false, ◌||◌, not, List, [], ◌∷◌, ltb, length, map, select, if◌then◌else◌,
}
use bookmarks_api.Text.{Text, codes, text_eq, is_empty, strip, split, starts_with}
use bookmarks_api.Text.Casing.{Casing}
use bookmarks_api.Tags.{member}
use bookmarks_api.Result.{Result, ok, raise, value_error}

-- `_PLACEHOLDER_SECRETS`
abbrev pub placeholder_secrets : List Text
placeholder_secrets =
    codes ""
    ∷ codes "secret"
    ∷ codes "change-me"
    ∷ codes "dev-secret-change-me-to-a-long-random-string-please"
    ∷ codes "change-me-to-a-long-random-string-in-production"
    ∷ []

-- `_DEV_ENVIRONMENTS`
abbrev pub dev_environments : List Text
dev_environments =
    codes "development" ∷ codes "dev" ∷ codes "local" ∷ codes "test" ∷ codes "testing" ∷ []

-- The settings that the properties and the check read.
pub record Settings : Type 0 where
  pub environment : Text
  pub database_url : Text
  pub jwt_secret : Text
  pub cors_origins : Text
  pub trusted_hosts : Text

-- `is_sqlite`
unfoldable pub is_sqlite : Settings → Bool
is_sqlite settings = starts_with (codes "sqlite") settings.database_url

-- `is_production`
unfoldable pub is_production : Casing → Settings → Bool
is_production casing settings = not (member (casing.lower settings.environment) dev_environments)

-- `_csv`
unfoldable pub csv : Text → List Text
csv value = map strip (select (λ item. not (is_empty (strip item))) (split b',' value))

unfoldable pub list_or_any : Text → List Text
unfolding csv
list_or_any value = if text_eq (strip value) (codes "*") then codes "*" ∷ [] else csv value

-- `cors_origin_list`
unfoldable pub cors_origin_list : Settings → List Text
cors_origin_list settings = list_or_any settings.cors_origins

-- `trusted_host_list`
unfoldable pub trusted_host_list : Settings → List Text
trusted_host_list settings = list_or_any settings.trusted_hosts

-- `_enforce_strong_secret`
unfoldable pub enforce_strong_secret : Casing → Settings → Result Settings
enforce_strong_secret casing settings =
    if not (member (casing.lower settings.environment) dev_environments)
    then (if member settings.jwt_secret placeholder_secrets || ltb (length settings.jwt_secret) 32
        then raise (
            value_error (
              codes
                "JWT_SECRET must be a strong, unique value of at least 32 characters outside development. Generate one with: python -c \"import secrets; print(secrets.token_urlsafe(48))\""))
        else ok settings)
    else ok settings
