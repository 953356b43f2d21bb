-- ===== src/Repository/Tags.antt =====
-- app/repositories/tag/repository.py, in a transaction that sees every tag that is committed: a name
-- that the lookup misses is in no row, and the unique index does not refuse it.
pub mod Laws
use bookmarks_api.Prelude.{
  ℕ, Bool, true, false, Option, none, some, List, [], ◌∷◌, ◌++◌, map, find, select, if◌then◌else◌,
}
use bookmarks_api.Text.{Text, text_eq}
use bookmarks_api.Tags.{member}
use bookmarks_api.Models.{Tag, Db, Engine}

-- `by_name.get(name)`, over the tags of the dict `by_name`
abbrev pub tag_named : Text → List Tag → Option Tag
tag_named name = find (λ (t : Tag). text_eq t.name name)

module _ (engine : Engine) where
  -- `Tag(name=name)`, added and flushed: the engine gives the key.
  unfoldable pub new_tag : Db → Text → Tag
  new_tag db name = record { id = engine.new_id (map (λ (t : Tag). t.id) db.tags); name = name }

  -- The `for` loop of `get_or_create`, over the names, `by_name`, and the open transaction.
  unfoldable pub create_loop : List Text → List Tag → Db → List Tag × Db
  create_loop [] by_name db = ([], db)
  create_loop (name ∷ names) by_name db = elim (tag_named name by_name) [
    | some tag ↦ let (result, db') = create_loop names by_name db in (tag ∷ result, db')
    | none ↦
        let tag = new_tag db name in
        let (result, db') =
          create_loop names (tag ∷ by_name) (record db { tags = db.tags ++ tag ∷ [] }) in
        (tag ∷ result, db')
  ]

  -- `TagRepository.get_or_create`
  unfoldable pub get_or_create : List Text → Db → List Tag × Db
  unfolding create_loop
  get_or_create [] db = ([], db)
  get_or_create (name ∷ names) db =
      create_loop (name ∷ names) (select (λ (t : Tag). member t.name (name ∷ names)) db.tags) db
