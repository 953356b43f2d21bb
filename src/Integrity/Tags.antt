-- ===== src/Integrity/Tags.antt =====
-- The writes of `get_or_create` in app/repositories/tag/repository.py.
use bookmarks_api.Prelude.{
  ◌≡◌, refl, sym, subst, ◌∙◌, true, false, none, some, List, [], ◌∷◌, ◌++◌, arith, All, All-map,
  select, find, Bool-cases, Option-cases, inl, inr,
}
use bookmarks_api.Text.{Text, text_eq, text_eq_iff, text_eq_refl}
use bookmarks_api.Models.{Tag, Db, Engine, has_id}
use bookmarks_api.Tags.{member}
use bookmarks_api.Repository.Tags.{tag_named, new_tag, create_loop, get_or_create}
use bookmarks_api.Repository.Tags.Laws.{names_of, name-tag_named, create_loop-Extends}
use bookmarks_api.Repository.Bookmarks.{tag_ids}
use bookmarks_api.Integrity.{add_tag, Writes, here, next, Writes-trans}

-- The key of the tag is in the table.
abbrev pub IsStored : Db → Tag → Type 0
IsStored db t = has_id t.id (tag_ids db.tags) ≡ true

-- The tag is the row of the table with its name.
abbrev pub IsRow : Db → Tag → Type 0
IsRow db t = tag_named t.name db.tags ≡ some t

-- The dict `by_name` answers for these names as the table does.
abbrev Known : List Tag → Db → List Text → Type 0
Known by_name db = All (λ name. tag_named name by_name ≡ tag_named name db.tags)

tag_named-select :
    (names : List Text) (name : Text) (ts : List Tag)
    → member name names ≡ true
    → tag_named name (select (λ (t : Tag). member t.name names) ts) ≡ tag_named name ts
unfolding find select
tag_named-select names name [] h = refl
tag_named-select names name (t ∷ ts) h = elim (Bool-cases (text_eq t.name name)) [
  | inl same ↦
      let hit : member t.name names ≡ true =
        subst (λ n. member n names ≡ true) (sym ((text_eq_iff t.name name).0 same)) h in
      rw (hit, same) refl
  | inr differs ↦ ground (arith, tag_named-select names name ts)
]

members : (names : List Text) → All (λ name. member name names ≡ true) names
unfolding member
members [] = tt
members (name ∷ names) =
    (ground (arith, text_eq_refl name), All-map (λ n h. ground (arith, h)) names (members names))

start-Known :
    (names : List Text) (db : Db)
    → Known (select (λ (t : Tag). member t.name names) db.tags) db names
start-Known names db =
    All-map (λ name h. tag_named-select names name db.tags h) names (members names)

tag_named-cons :
    (name : Text) (ts : List Tag) (t : Tag)
    → text_eq t.name name ≡ true
    → tag_named name (t ∷ ts) ≡ some t
unfolding find
tag_named-cons name ts t same = ground arith

tag_named-cons_other :
    (name : Text) (ts : List Tag) (t : Tag)
    → text_eq t.name name ≡ false
    → tag_named name (t ∷ ts) ≡ tag_named name ts
unfolding find
tag_named-cons_other name ts t other = ground arith

tag_named-snoc :
    (name : Text) (ts : List Tag) (t : Tag)
    → tag_named name ts ≡ none
    → text_eq t.name name ≡ true
    → tag_named name (ts ++ t ∷ []) ≡ some t
unfolding find
tag_named-snoc name [] t absent same = ground arith
tag_named-snoc name (u ∷ us) t absent same = ground (arith, tag_named-snoc name us t)

tag_named-snoc_other :
    (name : Text) (ts : List Tag) (t : Tag)
    → text_eq t.name name ≡ false
    → tag_named name (ts ++ t ∷ []) ≡ tag_named name ts
unfolding find
tag_named-snoc_other name [] t other = ground arith
tag_named-snoc_other name (u ∷ us) t other = ground (arith, tag_named-snoc_other name us t other)

-- The dict and the table still agree when the new tag stands first in one and last in the other.
agree_after :
    (by_name : List Tag) (ts : List Tag) (t : Tag) (name : Text)
    → tag_named t.name ts ≡ none
    → tag_named name by_name ≡ tag_named name ts
    → tag_named name (t ∷ by_name) ≡ tag_named name (ts ++ t ∷ [])
agree_after by_name ts t name absent same = elim (Bool-cases (text_eq t.name name)) [
  | inl here_ ↦
      let absent' : tag_named name ts ≡ none =
        subst (λ n. tag_named n ts ≡ none) ((text_eq_iff t.name name).0 here_) absent in
      tag_named-cons name by_name t here_ ∙ sym (tag_named-snoc name ts t absent' here_)
  | inr other ↦
      tag_named-cons_other name by_name t other
      ∙ (same ∙ sym (tag_named-snoc_other name ts t other))
]

absent_name :
    (name : Text) (ts : List Tag) → tag_named name ts ≡ none → member name (names_of ts) ≡ false
unfolding find member
absent_name name [] h = refl
absent_name name (t ∷ ts) h = ground (arith, absent_name name ts)

pub stored_named :
    (name : Text) (ts : List Tag) (t : Tag)
    → tag_named name ts ≡ some t
    → has_id t.id (tag_ids ts) ≡ true
unfolding find has_id
stored_named name [] t h = cc
stored_named name (u ∷ us) t h = ground (arith, stored_named name us t)

pub IsRow-IsStored : (db : Db) (t : Tag) → IsRow db t → IsStored db t
IsRow-IsStored db t h = stored_named t.name db.tags t h

tag_named-append :
    (name : Text) (ts us : List Tag) (t : Tag)
    → tag_named name ts ≡ some t
    → tag_named name (ts ++ us) ≡ some t
unfolding find
tag_named-append name [] us t h = cc
tag_named-append name (x ∷ ts) us t h = ground (arith, tag_named-append name ts us t)

module _ (engine : Engine) where
  -- A row before the loop is a row after it.
  loop-IsRow :
      (names : List Text) (by_name : List Tag) (db : Db) (t : Tag)
      → IsRow db t
      → IsRow (create_loop engine names by_name db).1 t
  loop-IsRow names by_name db t h =
      let (named, (users, bookmarks, links, (created, tags))) =
        create_loop-Extends engine names by_name db in
      subst (λ ts. tag_named t.name ts ≡ some t) (sym tags)
        (tag_named-append t.name db.tags created t h)

  create_loop-Writes :
      (names : List Text) (by_name : List Tag) (db : Db)
      → Known by_name db names
      → Writes db (create_loop engine names by_name db).1
        × All
            (IsRow (create_loop engine names by_name db).1)
            (create_loop engine names by_name db).0
  unfolding create_loop new_tag
  create_loop-Writes [] by_name db k = (here, tt)
  create_loop-Writes (name ∷ names) by_name db (same, k) =
      elim (Option-cases (tag_named name by_name)) [
        | inr (tag, found) ↦
            let (rest, stored) = create_loop-Writes names by_name db k in
            rw (found, create_loop)
              (
                rest,
                (
                  loop-IsRow names by_name db tag (
                      subst (λ n. tag_named n db.tags ≡ some tag)
                        (sym (name-tag_named name by_name tag found)) (sym same ∙ found)),
                  stored,
                ),
              )
        | inl absent ↦
            let tag = new_tag engine db name in
            let db' : Db = record db { tags = db.tags ++ tag ∷ [] } in
            let missing = sym same ∙ absent in
            let (rest, stored) =
              create_loop-Writes names (tag ∷ by_name) db'
                (All-map (λ n e. agree_after by_name db.tags tag n missing e) names k) in
            let first : Writes db db' = next here (
              add_tag tag (engine.new_id-fresh (tag_ids db.tags)) (absent_name name db.tags missing)
                refl) in
            rw (absent, create_loop)
              (
                Writes-trans first rest,
                (
                  loop-IsRow names (tag ∷ by_name) db' tag
                      (tag_named-snoc name db.tags tag missing (text_eq_refl name)),
                  stored,
                ),
              )
      ]

  -- `get_or_create` writes new tags only, under new keys and names, and returns rows of the table.
  pub get_or_create-Writes :
      (names : List Text) (db : Db)
      → Writes db (get_or_create engine names db).1
        × All (IsRow (get_or_create engine names db).1) (get_or_create engine names db).0
  unfolding get_or_create
  get_or_create-Writes [] db = (here, tt)
  get_or_create-Writes (name ∷ names) db =
      create_loop-Writes (name ∷ names) _ db (start-Known (name ∷ names) db)
