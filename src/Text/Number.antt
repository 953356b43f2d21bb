-- ===== src/Text/Number.antt =====
-- Python's `int` on a text: white space around it, a sign, and ASCII digits with single underscores
-- between them. Decimal digits of other scripts, which `int` takes as well, are not modelled.
use mathlib.Core.Option.{some-injective}
use bookmarks_api.Prelude.{
  ℕ, zero, suc, ◌+◌, ◌-◌, ◌*◌, ◌/◌, ◌%◌, ◌<◌, ◌≡◌, ap, ◌∙◌, Bool, true, false, ◌&&◌, Option, none,
  some, [], ◌∷◌, ◌++◌, arith, All, ltb, leb, ◌==◌, if◌then◌else◌, Bool-cases, inl, inr,
}
use bookmarks_api.Text.{Text, digits, str, strip, is_space}
use bookmarks_api.Text.Strip.{NoLead, NoTrail, strip_of_trimmed}
use bookmarks_api.Text.Decimal.{IsDigit, str-IsDigit}

-- A number from zero on, or below zero.
pub data IntValue : Type 0 where
  whole : ℕ → IntValue
  below_zero : ℕ → IntValue

-- The digits, behind a digit or not, where an underscore may stand or not.
unfoldable pub read_digits : Bool → ℕ → Text → Option ℕ
read_digits true n [] = some n
read_digits false n [] = none
read_digits behind n (c ∷ s) =
    let separated = read_digits false n s in
    let next = read_digits true (n * 10 + (c - 48)) s in
    if behind && c == b'_' then separated else if leb 48 c && leb c 57 then next else none

unfoldable pub signed : Text → Option IntValue
unfolding read_digits
signed [] = none
signed (c ∷ s) =
    if c == b'-'
    then (elim (read_digits false 0 s) [
      | some zero ↦ some (whole zero)
      | some (suc n) ↦ some (below_zero (suc n))
      | none ↦ none
    ])
    else (elim (read_digits false 0 (if c == b'+' then s else c ∷ s)) [
      | some n ↦ some (whole n)
      | none ↦ none
    ])

-- `int(s)`, `none` for a `ValueError`
unfoldable pub to_int : Text → Option IntValue
unfolding signed
to_int s = signed (strip s)

read_digits-append :
    (behind : Bool) (n m d : ℕ) (s : Text)
    → read_digits behind n s ≡ some m
    → d < 10
    → read_digits behind n (s ++ (48 + d) ∷ []) ≡ some (m * 10 + d)
unfolding read_digits
read_digits-append true n m d [] h le = ground (arith, some-injective n m h)
read_digits-append false n m d [] h le = cc
read_digits-append behind n m d (c ∷ s) h le =
    ground
      (arith, read_digits-append false n m d s, read_digits-append true (n * 10 + (c - 48)) m d s)

read_digits-digits : (f n : ℕ) → n < f → read_digits false 0 (digits f n) ≡ some n
unfolding digits read_digits
read_digits-digits zero n h = absurd (omega arith)
read_digits-digits (suc f) n h = elim (Bool-cases (ltb n 10)) [
  | inl small ↦ rw small (ground arith)
  | inr big ↦ rw big (
      read_digits-append false 0 (n / 10) (n % 10) (digits f (n / 10))
        (read_digits-digits f (n / 10) (ground arith)) (omega arith)
      ∙ ap some (omega arith))
]

digit-NoSpace : (c : ℕ) → IsDigit c → is_space c ≡ false
unfolding is_space
digit-NoSpace c h = ground arith

digits-NoLead : (s : Text) → All IsDigit s → NoLead s
digits-NoLead [] h = tt
digits-NoLead (c ∷ s) (h, hs) = digit-NoSpace c h

digits-NoTrail : (s : Text) → All IsDigit s → NoTrail s
digits-NoTrail [] h = tt
digits-NoTrail (c ∷ []) (h, hs) = digit-NoSpace c h
digits-NoTrail (c ∷ d ∷ s) (h, hs) = digits-NoTrail (d ∷ s) hs

signed_digits :
    (s : Text) (n : ℕ) → All IsDigit s → read_digits false 0 s ≡ some n → signed s ≡ some (whole n)
unfolding signed
signed_digits [] n h e = cc
signed_digits (c ∷ s) n (h, hs) e = ground (arith, e)

-- `int` reads back what `str` writes.
pub to_int-str : (n : ℕ) → to_int (str n) ≡ some (whole n)
unfolding to_int str
to_int-str n =
    ap signed (
      strip_of_trimmed (str n) (digits-NoLead (str n) (str-IsDigit n))
        (digits-NoTrail (str n) (str-IsDigit n)))
    ∙ signed_digits (str n) n (str-IsDigit n) (read_digits-digits (suc n) n (omega arith))
