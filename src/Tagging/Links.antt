-- ===== src/Tagging/Links.antt =====
-- On the flush of `bookmark.tags = new_tags` in app/repositories/bookmark/repository.py.
use bookmarks_api.Prelude.{
  ℕ, ◌≡◌, refl, sym, ap, ◌∙◌, true, false, ◌&&◌, ◌||◌, not, some, List, [], ◌∷◌, ◌++◌, arith,
  select, ◌==◌, Bool-cases, inl, inr,
}
use bookmarks_api.Models.{Tag, Link, has_id}
use bookmarks_api.Repository.Queries.{is_linked}
use bookmarks_api.Repository.Bookmarks.{
  tag_ids, insert_links, remove_link, delete_links, tags_without, relink,
}
use bookmarks_api.Repository.Bookmarks.Rows.{IsDistinct}
use bookmarks_api.Integrity.Keys.{IsDistinct-select}
use bookmarks_api.Tagging.Rows.{no_false}
use bookmarks_api.Integrity.Links.{is_linked-append}

is_linked-remove_link :
    (bookmark_id tag_id : ℕ) (links : List Link) (b i : ℕ)
    → is_linked (remove_link bookmark_id tag_id links) b i
      ≡ (is_linked links b i && not (b == bookmark_id && i == tag_id))
unfolding is_linked remove_link select
is_linked-remove_link bookmark_id tag_id [] b i = refl
is_linked-remove_link bookmark_id tag_id (l ∷ links) b i =
    ground (arith, is_linked-remove_link bookmark_id tag_id links b i)

pub has_id-tags_without :
    (us ts : List Tag) (i : ℕ)
    → has_id i (tag_ids (tags_without us ts))
      ≡ (has_id i (tag_ids ts) && not (has_id i (tag_ids us)))
unfolding has_id tags_without select
has_id-tags_without us [] i = refl
has_id-tags_without us (t ∷ ts) i = elim (Bool-cases (t.id == i)) [
  | inl same ↦
      let e : has_id t.id (tag_ids us) ≡ has_id i (tag_ids us) =
        ap (λ j. has_id j (tag_ids us)) (ground arith) in
      ground (arith, has_id-tags_without us ts i, e)
  | inr other ↦ ground (arith, has_id-tags_without us ts i)
]

module _ (bookmark_id : ℕ) where
  -- Pairs that are not there yet, each once, can be inserted, and then are there.
  pub record Inserts (ts : List Tag) (links : List Link) : Type 0 where
    pub after : List Link
    pub done : insert_links bookmark_id ts links ≡ some after
    pub linked :
        (b i : ℕ)
        → is_linked after b i ≡ (is_linked links b i || (b == bookmark_id && has_id i (tag_ids ts)))

  pub insert_links_done :
      (ts : List Tag) (links : List Link)
      → IsDistinct (tag_ids ts)
      → ((i : ℕ) → has_id i (tag_ids ts) ≡ true → is_linked links bookmark_id i ≡ false)
      → Inserts ts links
  unfolding insert_links has_id
  insert_links_done [] links d free = record {
    after = links;
    done = refl;
    linked = λ b i. ground arith;
  }
  insert_links_done (t ∷ ts) links (fresh, d) free =
      let link : Link = record { bookmark_id = bookmark_id; tag_id = t.id } in
      let rest =
        insert_links_done ts (links ++ link ∷ []) d
          (λ i h. ground (arith, is_linked-append links link bookmark_id i, free i)) in
      let first : is_linked links bookmark_id t.id ≡ false = free t.id (ground arith) in
      record {
        after = rest.after;
        done = rw first rest.done;
        linked = λ b i. ground (arith, rest.linked b i, is_linked-append links link b i);
      }

  pub record Deletes (ts : List Tag) (links : List Link) : Type 0 where
    pub after : List Link
    pub done : delete_links bookmark_id ts links ≡ some after
    pub linked :
        (b i : ℕ)
        → is_linked after b i
          ≡ (is_linked links b i && not (b == bookmark_id && has_id i (tag_ids ts)))

  pub delete_links_done :
      (ts : List Tag) (links : List Link)
      → IsDistinct (tag_ids ts)
      → ((i : ℕ) → has_id i (tag_ids ts) ≡ true → is_linked links bookmark_id i ≡ true)
      → Deletes ts links
  unfolding delete_links has_id
  delete_links_done [] links d there = record {
    after = links;
    done = refl;
    linked = λ b i. ground arith;
  }
  delete_links_done (t ∷ ts) links (fresh, d) there =
      let rest = delete_links_done ts (remove_link bookmark_id t.id links) d (λ i h. kept i h) in
      let first : is_linked links bookmark_id t.id ≡ true = there t.id (ground arith) in
      record {
        after = rest.after;
        done = rw first rest.done;
        linked = λ b i.
            ground (arith, rest.linked b i, is_linked-remove_link bookmark_id t.id links b i);
      }
    where
      kept :
          (i : ℕ)
          → has_id i (tag_ids ts) ≡ true
          → is_linked (remove_link bookmark_id t.id links) bookmark_id i ≡ true
      kept i h = elim (Bool-cases (i == t.id)) [
        | inl same ↦
            absurd (no_false (sym fresh ∙ ap (λ j. has_id j (tag_ids ts)) (sym (equal same)) ∙ h))
        | inr other ↦
            ground (arith, is_linked-remove_link bookmark_id t.id links bookmark_id i, there i)
      ]
        where
          equal : (i == t.id) ≡ true → i ≡ t.id
          equal e = ground arith

  -- The flush goes through when `old_tags` are the bookmark's tags: afterwards they are `new_tags`,
  -- and other bookmarks keep theirs.
  pub record Relinks (old_tags new_tags : List Tag) (links : List Link) : Type 0 where
    pub after : List Link
    pub done : relink bookmark_id old_tags new_tags links ≡ some after
    pub linked : (i : ℕ) → is_linked after bookmark_id i ≡ has_id i (tag_ids new_tags)
    pub others : (b i : ℕ) → (b == bookmark_id) ≡ false → is_linked after b i ≡ is_linked links b i

  pub relink_done :
      (old_tags new_tags : List Tag) (links : List Link)
      → IsDistinct (tag_ids old_tags)
      → IsDistinct (tag_ids new_tags)
      → ((i : ℕ) → is_linked links bookmark_id i ≡ has_id i (tag_ids old_tags))
      → Relinks old_tags new_tags links
  unfolding relink
  relink_done old_tags new_tags links d e full =
      let gone =
        delete_links_done (tags_without new_tags old_tags) links (distinct new_tags old_tags d)
          (λ i h. ground (arith, has_id-tags_without new_tags old_tags i, full i)) in
      let come =
        insert_links_done (tags_without old_tags new_tags) gone.after (distinct old_tags new_tags e)
          (λ i h.
            ground (
              arith,
              has_id-tags_without old_tags new_tags i,
              full i,
              gone.linked bookmark_id i,
            )) in
      record {
        after = come.after;
        done = rw (gone.done, relink) come.done;
        linked = λ i. ground (
          arith,
          come.linked bookmark_id i,
          gone.linked bookmark_id i,
          full i,
          has_id-tags_without old_tags new_tags i,
          has_id-tags_without new_tags old_tags i,
        );
        others = λ b i other. ground (arith, come.linked b i, gone.linked b i);
      }
    where
      distinct :
          (us ts : List Tag) → IsDistinct (tag_ids ts) → IsDistinct (tag_ids (tags_without us ts))
      distinct us ts h = unfold tags_without in IsDistinct-select (λ (t : Tag). t.id) _ ts h
