-- ===== src/Seed/Rows.antt =====
-- On `_add_bookmarks` of scripts/seed.py.
use bookmarks_api.Prelude.{
  ℕ, ◌≡◌, refl, sym, ap, ap₂, subst, inl, inr, arith, ◌∙◌, true, Option, some, List, [], ◌∷◌, ◌++◌,
  map, All, append_assoc, append-nil,
}
use bookmarks_api.Text.{Text}
use bookmarks_api.Text.Casing.{ascii}
use bookmarks_api.Tags.{member}
use bookmarks_api.Tags.Laws
use bookmarks_api.Repository.Tags.Laws.{names_of}
use bookmarks_api.Repository.Bookmarks.Rows.{ids, IsDistinct}
use bookmarks_api.Integrity.Keys.{has_id-append, has_id_kept}
use bookmarks_api.Tagging.Rows.{no_false}
use bookmarks_api.Tagging.Others.{distinct_after, tags_of_kept}
use bookmarks_api.Models.{Bookmark, Db, Engine, has_id}
use bookmarks_api.Result.{Result, ok}
use bookmarks_api.Service.Bookmarks.{or_rollback, tags_of}
use bookmarks_api.Integrity.{user_ids, IsValid}
use bookmarks_api.Tagging.Creation.{Added, add_succeeds}
use bookmarks_api.Seed.{SeedRow, and_then, add_rows, add_bookmarks}

-- The columns of a bookmark that the sample data gives, with its owner.
pub record Shown : Type 0 where
  pub title : Text
  pub url : Text
  pub description : Option Text
  pub user_id : ℕ
  pub created_at : ℕ

abbrev pub shown : Bookmark → Shown
shown b = record {
  title = b.title;
  url = b.url;
  description = b.description;
  user_id = b.user_id;
  created_at = b.created_at;
}

abbrev pub shown_row : ℕ → SeedRow → Shown
shown_row user_id r = record {
  title = r.title;
  url = r.url;
  description = some r.description;
  user_id = user_id;
  created_at = r.created_at;
}

-- The names of the tags of each bookmark are those of its row.
abbrev pub AllTagged : Db → List Bookmark → List SeedRow → Type 0
AllTagged db [] [] = Unit
AllTagged db [] (r ∷ rows) = ⊥
AllTagged db (b ∷ bs) [] = ⊥
AllTagged db (b ∷ bs) (r ∷ rows) =
    ((name : Text) → member name (names_of (tags_of db b)) ≡ member name r.tags)
    × AllTagged db bs rows

pub map-append {ℓ κ} :
    {A : Type ℓ} {B : Type κ} (f : A → B) (xs ys : List A) → map f (xs ++ ys) ≡ map f xs ++ map f ys
map-append f [] ys = refl
map-append f (x ∷ xs) ys = ap (◌∷◌ (f x)) (map-append f xs ys)

has_id_last : (xs : List Bookmark) (x : Bookmark) → has_id x.id (ids (xs ++ x ∷ [])) ≡ true
has_id_last xs x = ground (arith, has_id-append (λ (b : Bookmark). b.id) x.id xs x)

-- The bookmarks of `db` are in `after` with the tags that they had.
abbrev pub IsKept : Db → Db → Type 0
IsKept db after =
    (b : Bookmark)
    → has_id b.id (ids db.bookmarks) ≡ true
    → (has_id b.id (ids after.bookmarks) ≡ true) × (tags_of after b ≡ tags_of db b)

pub AllTagged-kept :
    (db after : Db) (bs : List Bookmark) (rows : List SeedRow)
    → IsKept db after
    → All (λ (b : Bookmark). has_id b.id (ids db.bookmarks) ≡ true) bs
    → AllTagged db bs rows
    → AllTagged after bs rows
AllTagged-kept db after [] [] k h t = tt
AllTagged-kept db after [] (r ∷ rows) k h t = elim t [ ]
AllTagged-kept db after (b ∷ bs) [] k h t = elim t [ ]
AllTagged-kept db after (b ∷ bs) (r ∷ rows) k (there, h) (named, t) = (
  (λ name. ap (λ ts. member name (names_of ts)) (k b there).1 ∙ named name),
  AllTagged-kept db after bs rows k h t,
)

pub AllTagged-append :
    (db : Db) (bs cs : List Bookmark) (rows others : List SeedRow)
    → AllTagged db bs rows
    → AllTagged db cs others
    → AllTagged db (bs ++ cs) (rows ++ others)
AllTagged-append db [] cs [] others t u = u
AllTagged-append db [] cs (r ∷ rows) others t u = elim t [ ]
AllTagged-append db (b ∷ bs) cs [] others t u = elim t [ ]
AllTagged-append db (b ∷ bs) cs (r ∷ rows) others (named, t) u =
    (named, AllTagged-append db bs cs rows others t u)

module _ (engine : Engine) (user_id : ℕ) where
  -- The rows are appended for the user, and nothing fails.
  pub record Stored (rows : List SeedRow) (db : Db) (out : Result (Unit {0}) × Db) : Type 0 where
    pub after : Db
    pub done : out ≡ (ok tt, after)
    pub valid : IsValid after
    pub users : after.users ≡ db.users
    pub added : List Bookmark
    pub bookmarks : after.bookmarks ≡ db.bookmarks ++ added
    pub shows : map shown added ≡ map (shown_row user_id) rows
    pub tagged : AllTagged after added rows
    pub present : All (λ (b : Bookmark). has_id b.id (ids after.bookmarks) ≡ true) added
    pub kept : IsKept db after

  one-IsKept :
      (r : SeedRow) (db : Db)
      → IsValid db
      → (one : Added engine ascii r.created_at user_id r.url r.title (some r.description) r.tags db)
      → IsKept db one.after
  one-IsKept r db v one b there =
      let distinct : IsDistinct (ids db.bookmarks ++ one.bookmark.id ∷ []) =
        subst IsDistinct
          (ap ids one.bookmarks
            ∙ map-append (λ (x : Bookmark). x.id) db.bookmarks (one.bookmark ∷ []))
          one.valid.bookmarks in
      let fresh = (distinct_after (ids db.bookmarks) (one.bookmark.id ∷ []) distinct).0 in
      (
        subst (λ bs. has_id b.id (ids bs) ≡ true) (sym one.bookmarks)
            (has_id_kept (λ (x : Bookmark). x.id) b.id db.bookmarks one.bookmark there),
        tags_of_kept db one.after b one.created v one.valid one.tags (λ tag_id.
            elim (one.tagged.others b.id tag_id) [
              | inl same ↦
                  absurd (
                    no_false (sym fresh ∙ ap (λ i. has_id i (ids db.bookmarks)) (sym same) ∙ there))
              | inr kept ↦ kept
            ]),
      )

  one_more :
      (r : SeedRow) (rows : List SeedRow) (db : Db)
      → IsValid db
      → (one : Added engine ascii r.created_at user_id r.url r.title (some r.description) r.tags db)
      → Stored rows one.after (add_rows engine user_id rows one.after)
      → Stored (r ∷ rows) db (add_rows engine user_id (r ∷ rows) db)
  unfolding add_rows and_then
  one_more r rows db v one rest =
      let there : has_id one.bookmark.id (ids one.after.bookmarks) ≡ true =
        subst (λ bs. has_id one.bookmark.id (ids bs) ≡ true) (sym one.bookmarks)
          (has_id_last db.bookmarks one.bookmark) in
      let kept_one = rest.kept one.bookmark there in
      record {
        after = rest.after;
        done =
            ap (λ (o : Result Bookmark × Db). and_then o (λ bookmark. add_rows engine user_id rows))
              one.done
            ∙ rest.done;
        valid = rest.valid;
        users = rest.users ∙ one.users;
        added = one.bookmark ∷ rest.added;
        bookmarks =
            rest.bookmarks
            ∙ ap (λ bs. bs ++ rest.added) one.bookmarks
            ∙ append_assoc db.bookmarks (one.bookmark ∷ []) rest.added;
        shows = ap₂ ◌∷◌ (ap shown one.row) rest.shows;
        tagged = (
          (λ name. ap (λ ts. member name (names_of ts)) kept_one.1 ∙ one.tagged.named name),
          rest.tagged,
        );
        present = (kept_one.0, rest.present);
        kept = λ b h.
            let (still, same) = one-IsKept r db v one b h in
            let (later, same') = rest.kept b still in (later, same' ∙ same);
      }

  add_rows-Stored :
      (rows : List SeedRow) (db : Db)
      → IsValid db
      → has_id user_id (user_ids db.users) ≡ true
      → All (λ r. Laws.IsDistinct r.tags) rows
      → Stored rows db (add_rows engine user_id rows db)
  unfolding add_rows
  add_rows-Stored [] db v present d = record {
    after = db;
    done = refl;
    valid = v;
    users = refl;
    added = [];
    bookmarks = sym (append-nil db.bookmarks);
    shows = refl;
    tagged = tt;
    present = tt;
    kept = λ b h. (h, refl);
  }
  add_rows-Stored (r ∷ rows) db v present (d, ds) =
      let one =
        add_succeeds engine ascii r.created_at user_id r.url r.title (some r.description) r.tags db
          v present d in
      one_more r rows db v one (
        add_rows-Stored rows one.after one.valid
          (subst (λ us. has_id user_id (user_ids us) ≡ true) (sym one.users) present) ds)

  pub add_bookmarks-Stored :
      (rows : List SeedRow) (db : Db)
      → IsValid db
      → has_id user_id (user_ids db.users) ≡ true
      → All (λ r. Laws.IsDistinct r.tags) rows
      → Stored rows db (add_bookmarks engine user_id rows db)
  unfolding add_bookmarks or_rollback
  add_bookmarks-Stored rows db v present d =
      let s = add_rows-Stored rows db v present d in
      record {
        after = s.after;
        done = ap (or_rollback db) s.done;
        valid = s.valid;
        users = s.users;
        added = s.added;
        bookmarks = s.bookmarks;
        shows = s.shows;
        tagged = s.tagged;
        present = s.present;
        kept = s.kept;
      }
