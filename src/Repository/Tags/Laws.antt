-- ===== src/Repository/Tags/Laws.antt =====
-- On `get_or_create` of app/repositories/tag/repository.py.
use bookmarks_api.Prelude.{
  ◌≡◌, refl, sym, ap, ap₂, ◌∙◌, some, List, [], ◌∷◌, ◌++◌, map, arith, find, append_assoc,
  append-nil, Option-cases, inl, inr,
}
use bookmarks_api.Text.{Text, text_eq_iff}
use bookmarks_api.Models.{Tag, Db, Engine}
use bookmarks_api.Repository.Tags.{tag_named, new_tag, create_loop, get_or_create}

abbrev pub names_of : List Tag → List Text
names_of = map (λ (t : Tag). t.name)

pub name-tag_named :
    (name : Text) (tags : List Tag) (t : Tag) → tag_named name tags ≡ some t → t.name ≡ name
unfolding find
name-tag_named name [] t h = cc
name-tag_named name (u ∷ tags) t h =
    ground (arith, name-tag_named name tags t, text_eq_iff u.name name)

module _ (engine : Engine) where
  -- What the loop does to the other tables, and that it only appends tags.
  abbrev pub Extends : Db → Db → Type 0
  Extends db db' =
      (db'.users ≡ db.users)
      × (db'.bookmarks ≡ db.bookmarks)
      × (db'.bookmark_tags ≡ db.bookmark_tags)
      × ((created : List Tag) × (db'.tags ≡ db.tags ++ created))

  pub create_loop-Extends :
      (names : List Text) (by_name : List Tag) (db : Db)
      → (names_of (create_loop engine names by_name db).0 ≡ names)
        × Extends db (create_loop engine names by_name db).1
  unfolding create_loop new_tag
  create_loop-Extends [] by_name db = (refl, (refl, refl, refl, ([], sym (append-nil db.tags))))
  create_loop-Extends (name ∷ names) by_name db = elim (Option-cases (tag_named name by_name)) [
    | inl absent ↦
        let tag = new_tag engine db name in
        let (named, (users, bookmarks, links, (created, tags))) =
          create_loop-Extends names (tag ∷ by_name) (record db { tags = db.tags ++ tag ∷ [] }) in
        rw (absent, create_loop)
          (
            ap (◌∷◌ name) named,
            (
              users,
              bookmarks,
              links,
              (tag ∷ created, tags ∙ append_assoc db.tags (tag ∷ []) created),
            ),
          )
    | inr (tag, found) ↦
        let (named, rest) = create_loop-Extends names by_name db in
        rw (found, create_loop) (ap₂ ◌∷◌ (name-tag_named name by_name tag found) named, rest)
  ]

  -- The tags that come back bear the names asked for, in order, and the transaction has only added
  -- tags to the database.
  pub get_or_create-Extends :
      (names : List Text) (db : Db)
      → (names_of (get_or_create engine names db).0 ≡ names)
        × Extends db (get_or_create engine names db).1
  unfolding get_or_create
  get_or_create-Extends [] db = (refl, (refl, refl, refl, ([], sym (append-nil db.tags))))
  get_or_create-Extends (name ∷ names) db = create_loop-Extends (name ∷ names) _ db
