-- ===== src/Integrity/Keeps.antt =====
-- Each write keeps the constraints of the tables.
use bookmarks_api.Prelude.{
  ℕ, ◌≡◌, sym, subst, true, false, not, List, [], ◌∷◌, arith, All, All-append, All-map, select,
  ◌==◌, Bool-cases, inl, inr,
}
use bookmarks_api.Models.{User, Tag, Bookmark, Link, Db, empty_db, has_id}
use bookmarks_api.Repository.Bookmarks.{tag_ids, is_current, update_row, update_rows, remove_link}
use bookmarks_api.Repository.Bookmarks.Rows.{ids, IsDistinct, ids-update_rows}
use bookmarks_api.Service.Auth.Uniqueness.{IsUnique-append}
use bookmarks_api.Integrity.{
  user_ids, IsAttached, IsOwned, IsValid, Write, add_user, add_tag, add_bookmark, add_link,
  drop_link, change_row, drop_row, Writes, here, next,
}
use bookmarks_api.Integrity.Keys.{
  has_id_kept, IsDistinct-snoc, IsDistinct-select, All-select, All-select_passed, HasNames-snoc,
}
use bookmarks_api.Integrity.Links.{HasPairs-snoc, HasPairs-select}

-- A bookmark keeps its owner, and its version does not fall below one.
update_rows-IsOwned :
    (users : List ℕ) (now : ℕ) (loaded assigned : Bookmark) (rows : List Bookmark)
    → All (IsOwned users) rows
    → All (IsOwned users) (update_rows now loaded assigned rows)
unfolding update_rows update_row
update_rows-IsOwned users now loaded assigned [] h = tt
update_rows-IsOwned users now loaded assigned (r ∷ rows) ((owner, version), h) =
    elim (Bool-cases (is_current loaded r)) [
      | inl current ↦
          rw current ((owner, omega arith), update_rows-IsOwned users now loaded assigned rows h)
      | inr past ↦ rw past ((owner, version), update_rows-IsOwned users now loaded assigned rows h)
    ]

-- The links that are left do not point at a row that went.
has_id-kept_row :
    (loaded : Bookmark) (i : ℕ) (rows : List Bookmark)
    → (i == loaded.id) ≡ false
    → has_id i (ids rows) ≡ true
    → has_id i (ids (select (λ b. not (is_current loaded b)) rows)) ≡ true
unfolding has_id select
has_id-kept_row loaded i [] ne h = cc
has_id-kept_row loaded i (r ∷ rows) ne h = ground (arith, has_id-kept_row loaded i rows ne)

drop_row-IsAttached :
    (loaded : Bookmark) (rows : List Bookmark) (tags : List ℕ) (links : List Link)
    → All (IsAttached (ids rows) tags) links
    → All
        (IsAttached (ids (select (λ b. not (is_current loaded b)) rows)) tags)
        (select (λ l. not (l.bookmark_id == loaded.id)) links)
drop_row-IsAttached loaded rows tags links h =
    All-select_passed (IsAttached (ids rows) tags) _
      (λ (l : Link). not (l.bookmark_id == loaded.id)) links
      (λ l passed a. (has_id-kept_row loaded l.bookmark_id rows (ground arith) a.0, a.1)) h

pub empty-IsValid : IsValid empty_db
empty-IsValid = record {
  users = tt;
  accounts = tt;
  tags = tt;
  names = tt;
  bookmarks = tt;
  owned = tt;
  pairs = tt;
  attached = tt;
}

pub Write-IsValid : {db after : Db} → Write db after → IsValid db → IsValid after
Write-IsValid {db} (add_user u fresh free e) v = subst IsValid (sym e) (record {
  users = IsDistinct-snoc (λ (x : User). x.id) db.users u v.users fresh;
  accounts = IsUnique-append db.users u v.accounts free;
  tags = v.tags;
  names = v.names;
  bookmarks = v.bookmarks;
  owned =
      All-map (λ b o. (has_id_kept (λ (x : User). x.id) b.user_id db.users u o.0, o.1)) db.bookmarks
        v.owned;
  pairs = v.pairs;
  attached = v.attached;
})
Write-IsValid {db} (add_tag t fresh free e) v = subst IsValid (sym e) (record {
  users = v.users;
  accounts = v.accounts;
  tags = IsDistinct-snoc (λ (x : Tag). x.id) db.tags t v.tags fresh;
  names = HasNames-snoc db.tags t v.names free;
  bookmarks = v.bookmarks;
  owned = v.owned;
  pairs = v.pairs;
  attached =
      All-map (λ l a. (a.0, has_id_kept (λ (x : Tag). x.id) l.tag_id db.tags t a.1))
        db.bookmark_tags v.attached;
})
Write-IsValid {db} (add_bookmark b fresh owner version e) v = subst IsValid (sym e) (record {
  users = v.users;
  accounts = v.accounts;
  tags = v.tags;
  names = v.names;
  bookmarks = IsDistinct-snoc (λ (x : Bookmark). x.id) db.bookmarks b v.bookmarks fresh;
  owned =
      All-append (IsOwned (user_ids db.users)) db.bookmarks (b ∷ []) v.owned ((owner, version), tt);
  pairs = v.pairs;
  attached =
      All-map (λ l a. (has_id_kept (λ (x : Bookmark). x.id) l.bookmark_id db.bookmarks b a.0, a.1))
        db.bookmark_tags v.attached;
})
Write-IsValid {db} (add_link l fresh bookmark tag e) v = subst IsValid (sym e) (record {
  users = v.users;
  accounts = v.accounts;
  tags = v.tags;
  names = v.names;
  bookmarks = v.bookmarks;
  owned = v.owned;
  pairs = HasPairs-snoc db.bookmark_tags l v.pairs fresh;
  attached =
      All-append (IsAttached (ids db.bookmarks) (tag_ids db.tags)) db.bookmark_tags (l ∷ [])
        v.attached ((bookmark, tag), tt);
})
Write-IsValid {db} (drop_link bookmark_id tag_id e) v = subst IsValid (sym e) (record {
  users = v.users;
  accounts = v.accounts;
  tags = v.tags;
  names = v.names;
  bookmarks = v.bookmarks;
  owned = v.owned;
  pairs = unfold remove_link in HasPairs-select _ db.bookmark_tags v.pairs;
  attached = unfold remove_link in All-select _ _ db.bookmark_tags v.attached;
})
Write-IsValid {db} (change_row now loaded assigned e) v = subst IsValid (sym e) (record {
  users = v.users;
  accounts = v.accounts;
  tags = v.tags;
  names = v.names;
  bookmarks = subst IsDistinct (sym (ids-update_rows now loaded assigned db.bookmarks)) v.bookmarks;
  owned = update_rows-IsOwned (user_ids db.users) now loaded assigned db.bookmarks v.owned;
  pairs = v.pairs;
  attached =
      subst (λ is. All (IsAttached is (tag_ids db.tags)) db.bookmark_tags)
        (sym (ids-update_rows now loaded assigned db.bookmarks)) v.attached;
})
Write-IsValid {db} (drop_row loaded e) v = subst IsValid (sym e) (record {
  users = v.users;
  accounts = v.accounts;
  tags = v.tags;
  names = v.names;
  bookmarks =
      IsDistinct-select (λ (x : Bookmark). x.id) (λ b. not (is_current loaded b)) db.bookmarks
        v.bookmarks;
  owned = All-select _ (λ b. not (is_current loaded b)) db.bookmarks v.owned;
  pairs = HasPairs-select (λ l. not (l.bookmark_id == loaded.id)) db.bookmark_tags v.pairs;
  attached = drop_row-IsAttached loaded db.bookmarks (tag_ids db.tags) db.bookmark_tags v.attached;
})

-- Any number of writes keeps the constraints.
pub Writes-IsValid : {db after : Db} → Writes db after → IsValid db → IsValid after
Writes-IsValid here v = v
Writes-IsValid (next w s) v = Write-IsValid s (Writes-IsValid w v)
