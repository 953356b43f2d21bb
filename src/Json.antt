-- ===== src/Json.antt =====
-- The values that the program puts into a JSON response.
use bookmarks_api.Prelude.{ℕ, Bool}
use bookmarks_api.Text.{Text}

mutual
  pub data Json : Type 0 where
    null : Json
    num : ℕ → Json
    text : Text → Json
    flag : Bool → Json
    arr : Items → Json
    obj : Fields → Json

  pub data Items : Type 0 where
    nil : Items
    item : Json → Items → Items

  pub data Fields : Type 0 where
    end : Fields
    field : Text → Json → Fields → Fields
