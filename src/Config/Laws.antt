-- ===== src/Config/Laws.antt =====
-- On the check and the lists of app/config.py.
use bookmarks_api.Prelude.{
  ◌≤◌, ◌≡◌, ◌↔◌, ◌⊎◌, false, not, List, [], ◌∷◌, arith, length, map, select, All, Bool-cases, inl,
  inr,
}
use bookmarks_api.Text.{Text, is_empty, strip, split}
use bookmarks_api.Text.Casing.{Casing}
use bookmarks_api.Text.Strip.{strip_idem}
use bookmarks_api.Tags.{member}
use bookmarks_api.Result.{ok}
use bookmarks_api.Config.{Settings, placeholder_secrets, csv, is_production, enforce_strong_secret}

pub enforce_strong_secret_iff :
    (casing : Casing) (settings : Settings)
    → (enforce_strong_secret casing settings ≡ ok settings) ↔ (
        (is_production casing settings ≡ false)
        ⊎ ((member settings.jwt_secret placeholder_secrets ≡ false)
            × (32 ≤ length settings.jwt_secret)))
unfolding enforce_strong_secret is_production
enforce_strong_secret_iff casing settings = ground arith

-- An item as `csv` keeps it.
pub record IsItem (item : Text) : Type 0 where
  pub trimmed : strip item ≡ item
  pub nonblank : is_empty item ≡ false

items-IsItem :
    (items : List Text)
    → All IsItem (map strip (select (λ item. not (is_empty (strip item))) items))
unfolding select
items-IsItem [] = tt
items-IsItem (x ∷ items) = elim (Bool-cases (is_empty (strip x))) [
  | inl blank ↦ rw blank (items-IsItem items)
  | inr kept ↦ rw kept (record { trimmed = strip_idem x; nonblank = kept }, items-IsItem items)
]

-- Every item of a list setting is trimmed and not blank.
pub csv-IsItem : (value : Text) → All IsItem (csv value)
unfolding csv
csv-IsItem value = items-IsItem (split b',' value)
