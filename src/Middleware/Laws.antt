-- ===== src/Middleware/Laws.antt =====
-- On the middlewares of app/core/middleware.py.
use bookmarks_api.Prelude.{
  ℕ, ◌≡◌, refl, ap, subst, ◌∙◌, Bool, Option, none, some, [], ◌∷◌, arith, ltb, if◌then◌else◌,
  Option-cases, Bool-cases, inl, inr,
}
use bookmarks_api.Text.{Text, str, text_eq, text_eq_iff}
use bookmarks_api.Text.Number.{to_int-str}
use bookmarks_api.Dict.{Dict, get, get-put}
use bookmarks_api.Middleware.{
  Response, setdefault, setdefaults, security_headers, add_security_headers, too_large, exceeds,
  dispatch_body_size,
}

-- The first of two optional values that is there.
abbrev pub or_default : Option Text → Option Text → Option Text
or_default (some v) d = some v
or_default none d = d

or_default-none : (o : Option Text) → o ≡ or_default o none
or_default-none none = refl
or_default-none (some v) = refl

present :
    (name value j : Text) (headers : Dict Text) (v : Text)
    → get name headers ≡ some v
    → get j headers ≡ or_default (get j headers) (if text_eq name j then some value else none)
present name value j headers v found = elim (Bool-cases (text_eq name j)) [
  | inl same ↦
      let found_j : get j headers ≡ some v =
        subst (λ k. get k headers ≡ some v) ((text_eq_iff name j).0 same) found in
      rw found_j
  | inr differs ↦ rw differs (or_default-none (get j headers))
]

missing :
    (name value j : Text) (headers : Dict Text)
    → get name headers ≡ none
    → (if text_eq name j then some value else get j headers)
      ≡ or_default (get j headers) (if text_eq name j then some value else none)
missing name value j headers absent = elim (Bool-cases (text_eq name j)) [
  | inl same ↦
      let absent_j : get j headers ≡ none =
        subst (λ k. get k headers ≡ none) ((text_eq_iff name j).0 same) absent in
      rw (same, absent_j)
  | inr differs ↦ rw differs (or_default-none (get j headers))
]

get-setdefault :
    (name value j : Text) (headers : Dict Text)
    → get j (setdefault name value headers)
      ≡ or_default (get j headers) (if text_eq name j then some value else none)
unfolding setdefault
get-setdefault name value j headers = elim (Option-cases (get name headers)) [
  | inr (v, found) ↦ rw (found, setdefault) (present name value j headers v found)
  | inl absent ↦
      rw (absent, setdefault) (get-put name j value headers ∙ missing name value j headers absent)
]

or_default_assoc :
    (a b c : Option Text) → or_default (or_default a b) c ≡ or_default a (or_default b c)
or_default_assoc none b c = refl
or_default_assoc (some v) b c = refl

head_or :
    (name value j : Text) (defaults : Dict Text)
    → or_default (if text_eq name j then some value else none) (get j defaults)
      ≡ get j ((name, value) ∷ defaults)
unfolding get
head_or name value j defaults = ground arith

get-setdefaults :
    (defaults headers : Dict Text) (j : Text)
    → get j (setdefaults defaults headers) ≡ or_default (get j headers) (get j defaults)
unfolding setdefaults get
get-setdefaults [] headers j = or_default-none (get j headers)
get-setdefaults ((name, value) ∷ defaults) headers j =
    get-setdefaults defaults (setdefault name value headers) j
    ∙ ap (λ o. or_default o (get j defaults)) (get-setdefault name value j headers)
    ∙ or_default_assoc (get j headers) _ (get j defaults)
    ∙ ap (or_default (get j headers)) (head_or name value j defaults)

-- Every header of a response is the one that the handler set, or else the security default of that
-- name; the status and the body stay.
pub get-add_security_headers :
    (hsts : Bool) (response : Response) (name : Text)
    → (get name (add_security_headers hsts response).headers
        ≡ or_default (get name response.headers) (get name (security_headers hsts)))
      × ((add_security_headers hsts response).status_code ≡ response.status_code)
      × ((add_security_headers hsts response).content ≡ response.content)
unfolding add_security_headers
get-add_security_headers hsts response name =
    (get-setdefaults (security_headers hsts) response.headers name, refl, refl)

-- A request that declares its size is refused with 413 exactly if the size is above the limit, and
-- is passed on otherwise.
pub dispatch_body_size-str :
    (max_bytes size : ℕ) (next : Option Response)
    → dispatch_body_size max_bytes next (some (str size))
      ≡ (if ltb max_bytes size then some (too_large max_bytes) else next)
unfolding dispatch_body_size
dispatch_body_size-str max_bytes size next =
    ap (λ n. if exceeds max_bytes n then some (too_large max_bytes) else next) (to_int-str size)
