-- ===== src/Dict.antt =====
-- Python's `dict` with text keys, as an association list. The program never iterates over one that
-- is modelled so, and a key is listed once.
use bookmarks_api.Prelude.{◌≡◌, ◌≢◌, refl, Option, none, some, List, [], ◌∷◌, arith, if◌then◌else◌}
use bookmarks_api.Text.{Text, text_eq, text_eq_iff, text_eq_refl, text_eq_ne}

abbrev pub Dict {ℓ} : Type ℓ → Type ℓ
Dict V = List (Text × V)

module _ {ℓ} {V : Type ℓ} where
  -- `d.get(k)`
  unfoldable pub get : Text → Dict V → Option V
  get k [] = none
  get k ((j, v) ∷ d) = if text_eq j k then some v else get k d

  -- `d.pop(k, None)`
  unfoldable pub remove : Text → Dict V → Dict V
  remove k [] = []
  remove k ((j, v) ∷ d) = let rest = remove k d in if text_eq j k then rest else (j, v) ∷ rest

  -- `d[k] = v`
  unfoldable pub put : Text → V → Dict V → Dict V
  put k v [] = (k, v) ∷ []
  put k v ((j, w) ∷ d) = let rest = put k v d in if text_eq j k then (k, v) ∷ d else (j, w) ∷ rest

  pub get-remove :
      (k j : Text) (d : Dict V) → get j (remove k d) ≡ (if text_eq k j then none else get j d)
  unfolding get remove
  get-remove k j [] = ground arith
  get-remove k j ((i, v) ∷ d) =
      ground (arith, get-remove k j d, text_eq_iff i k, text_eq_iff i j, text_eq_iff k j)

  pub get-put :
      (k j : Text) (v : V) (d : Dict V)
      → get j (put k v d) ≡ (if text_eq k j then some v else get j d)
  unfolding get put
  get-put k j v [] = refl
  get-put k j v ((i, w) ∷ d) =
      ground (arith, get-put k j v d, text_eq_iff i k, text_eq_iff i j, text_eq_iff k j)

  pub get-put_self : (k : Text) (v : V) (d : Dict V) → get k (put k v d) ≡ some v
  get-put_self k v d = rw (get-put, text_eq_refl k)

  pub get-put_ne : (k j : Text) (v : V) (d : Dict V) → k ≢ j → get j (put k v d) ≡ get j d
  get-put_ne k j v d h = rw (get-put, text_eq_ne k j h)

  pub get-remove_ne : (k j : Text) (d : Dict V) → k ≢ j → get j (remove k d) ≡ get j d
  get-remove_ne k j d h = rw (get-remove, text_eq_ne k j h)
