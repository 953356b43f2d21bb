-- ===== src/Tagging/Reading.antt =====
-- The tags that a bookmark is loaded with, over tables that keep their constraints.
use bookmarks_api.Prelude.{
  ◌⊎◌, ℕ, ◌≡◌, refl, sym, ap, subst, ◌∙◌, Bool, true, false, ◌&&◌, some, List, [], ◌∷◌, All,
  All-map, arith, select, ◌==◌, Bool-cases, inl, inr,
}
use bookmarks_api.Text.{Text}
use bookmarks_api.Text.Casing.{Casing}
use bookmarks_api.Tags.{RawTag, member, normalize_tags}
use bookmarks_api.Tags.Laws.{normalize_tags-IsTag}
use bookmarks_api.Tags.Laws
use bookmarks_api.Models.{Tag, Bookmark, Link, Db, Engine, has_id}
use bookmarks_api.Result.{ok}
use bookmarks_api.Repository.Tags.{get_or_create}
use bookmarks_api.Repository.Tags.Laws.{names_of, get_or_create-Extends}
use bookmarks_api.Repository.Queries.{is_linked}
use bookmarks_api.Repository.Bookmarks.{tag_ids}
use bookmarks_api.Repository.Bookmarks.Rows.{ids, IsDistinct}
use bookmarks_api.Service.Bookmarks.{tags_of, resolve_tags}
use bookmarks_api.Integrity.{IsAttached, IsValid}
use bookmarks_api.Integrity.Keeps.{Writes-IsValid}
use bookmarks_api.Integrity.Keys.{IsDistinct-select}
use bookmarks_api.Integrity.Tags.{IsRow, get_or_create-Writes}
use bookmarks_api.Tagging.Rows.{
  has_id-member, IsDistinct-tag_ids, HasNames-IsRow, member-rows, member-select,
}

linked-attached :
    (bs ts : List ℕ) (links : List Link) (b i : ℕ)
    → All (IsAttached bs ts) links
    → is_linked links b i ≡ true
    → (has_id b bs ≡ true) × (has_id i ts ≡ true)
unfolding is_linked
linked-attached bs ts [] b i h linked = cc
linked-attached bs ts (l ∷ links) b i ((row, tag), h) linked =
    elim (Bool-cases (l.bookmark_id == b && l.tag_id == i)) [
      | inl here_ ↦ (
        subst (λ j. has_id j bs ≡ true) (ground arith) row,
        subst (λ j. has_id j ts ≡ true) (ground arith) tag,
      )
      | inr past ↦ linked-attached bs ts links b i h (rw past at linked)
    ]

-- A bookmark that is not in the table has no tags.
pub unlinked :
    (db : Db) (b i : ℕ)
    → IsValid db
    → has_id b (ids db.bookmarks) ≡ false
    → is_linked db.bookmark_tags b i ≡ false
unlinked db b i v fresh = elim (Bool-cases (is_linked db.bookmark_tags b i)) [
  | inl linked ↦
      let (row, tag) =
        linked-attached (ids db.bookmarks) (tag_ids db.tags) db.bookmark_tags b i v.attached
          linked in
      absurd (ground arith)
  | inr gone ↦ gone
]

has_id-linked :
    (links : List Link) (b i : ℕ) (ts : List Tag)
    → has_id i (tag_ids (select (λ (t : Tag). is_linked links b t.id) ts))
      ≡ (has_id i (tag_ids ts) && is_linked links b i)
unfolding has_id select
has_id-linked links b i [] = refl
has_id-linked links b i (t ∷ ts) = elim (Bool-cases (t.id == i)) [
  | inl same ↦
      let e : is_linked links b t.id ≡ is_linked links b i =
        ap (is_linked links b) (ground arith) in
      ground (arith, has_id-linked links b i ts, e)
  | inr other ↦ ground (arith, has_id-linked links b i ts)
]

-- The tags that are loaded are all the tags that the bookmark is linked to.
pub tags_of_full :
    (db : Db) (b : Bookmark) (i : ℕ)
    → IsValid db
    → is_linked db.bookmark_tags b.id i ≡ has_id i (tag_ids (tags_of db b))
unfolding tags_of
tags_of_full db b i v = elim (Bool-cases (is_linked db.bookmark_tags b.id i)) [
  | inl linked ↦
      let (row, tag) =
        linked-attached (ids db.bookmarks) (tag_ids db.tags) db.bookmark_tags b.id i v.attached
          linked in
      ground (arith, has_id-linked db.bookmark_tags b.id i db.tags)
  | inr gone ↦ ground (arith, has_id-linked db.bookmark_tags b.id i db.tags)
]

pub tags_of-IsDistinct : (db : Db) (b : Bookmark) → IsValid db → IsDistinct (tag_ids (tags_of db b))
unfolding tags_of
tags_of-IsDistinct db b v =
    IsDistinct-select (λ (t : Tag). t.id) (λ (t : Tag). is_linked db.bookmark_tags b.id t.id)
      db.tags v.tags

-- What a request that gives the bookmark these names leaves: they are the names of its tags, and
-- other bookmarks keep their tags.
pub record Tagged (names : List Text) (b : Bookmark) (db after : Db) : Type 0 where
  pub named : (name : Text) → member name (names_of (tags_of after b)) ≡ member name names
  pub others :
      (i tag_id : ℕ)
      → (i ≡ b.id) ⊎ (is_linked after.bookmark_tags i tag_id ≡ is_linked db.bookmark_tags i tag_id)

pub tags_of-names :
    (db after : Db) (b : Bookmark) (us : List Tag) (name : Text)
    → IsValid db
    → after.tags ≡ db.tags
    → All (IsRow db) us
    → ((i : ℕ) → is_linked after.bookmark_tags b.id i ≡ has_id i (tag_ids us))
    → member name (names_of (tags_of after b)) ≡ member name (names_of us)
unfolding tags_of
tags_of-names db after b us name v same rows linked =
    ap (λ ts. member name (names_of (select p ts))) same ∙ selected ∙ known
  where
    p : Tag → Bool
    p t = is_linked after.bookmark_tags b.id t.id

    selected :
        member name (names_of (select p db.tags))
        ≡ (member name (names_of db.tags) && member name (names_of us))
    selected = member-select p (names_of us) name db.tags (
        All-map (λ t row. linked t.id ∙ has_id-member db t us v.tags row rows) db.tags
          (HasNames-IsRow db.tags v.names))

    known :
        (member name (names_of db.tags) && member name (names_of us)) ≡ member name (names_of us)
    known = elim (Bool-cases (member name (names_of us))) [
      | inl there ↦ ground (arith, member-rows db name us rows there)
      | inr gone ↦ ground arith
    ]

module _ (engine : Engine) (casing : Casing) where
  -- The tags of a request, resolved in a database that keeps its constraints.
  pub record Resolved (names : List Text) (us : List Tag) (db flushed : Db) : Type 0 where
    pub valid : IsValid flushed
    pub rows : All (IsRow flushed) us
    pub distinct : IsDistinct (tag_ids us)
    pub named : names_of us ≡ names
    pub users : flushed.users ≡ db.users
    pub bookmarks : flushed.bookmarks ≡ db.bookmarks
    pub links : flushed.bookmark_tags ≡ db.bookmark_tags

  pub get_or_create-Resolved :
      (names : List Text) (db : Db)
      → IsValid db
      → Laws.IsDistinct names
      → Resolved names (get_or_create engine names db).0 db (get_or_create engine names db).1
  get_or_create-Resolved names db v d =
      let (w, rows) = get_or_create-Writes engine names db in
      let (named, (users, bookmarks, links, created)) = get_or_create-Extends engine names db in
      let flushed = (get_or_create engine names db).1 in
      let valid = Writes-IsValid w v in
      record {
        valid = valid;
        rows = rows;
        distinct =
            IsDistinct-tag_ids flushed ((get_or_create engine names db).0) valid.tags rows
              (subst Laws.IsDistinct (sym named) d);
        named = named;
        users = users;
        bookmarks = bookmarks;
        links = links;
      }

  pub resolve_tags_done :
      (raw : List RawTag) (names : List Text) (db : Db)
      → normalize_tags casing (some raw) ≡ ok names
      → resolve_tags engine casing raw db ≡ ok (get_or_create engine names db)
  unfolding resolve_tags
  resolve_tags_done raw names db h = rw (h, resolve_tags) refl
