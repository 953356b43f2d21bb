-- ===== src/Schemas/Laws.antt =====
-- On the password rules of app/schemas/auth.py.
use bookmarks_api.Prelude.{◌<◌, ◌⊎◌, ◌≡◌, false, length}
use bookmarks_api.Text.{Text, contains}
use bookmarks_api.Text.Casing.{Casing}

-- A text that is shorter than three characters, or that the password does not contain.
abbrev pub IsApart : Text → Text → Type 0
IsApart low token = (length token < 3) ⊎ (contains token low ≡ false)
