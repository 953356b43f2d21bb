-- ===== src/Text/Decimal.antt =====
-- On the decimal digits of a number.
use bookmarks_api.Prelude.{
  false, ℕ, zero, suc, ◌+◌, ◌-◌, ◌*◌, ◌/◌, ◌%◌, ◌≤◌, ◌<◌, ◌≡◌, refl, sym, ap, ◌∙◌, [], ◌∷◌, ◌++◌,
  arith, All, All-append, ltb, Bool-cases, inl, inr,
}
use bookmarks_api.Text.{Text, digits, str, is_empty}

-- The number that a row of digits spells, read from the left.
value_from : ℕ → Text → ℕ
value_from n [] = n
value_from n (c ∷ s) = value_from (n * 10 + (c - 48)) s

value_from-append : (n : ℕ) (s t : Text) → value_from n (s ++ t) ≡ value_from (value_from n s) t
unfolding value_from
value_from-append n [] t = refl
value_from-append n (c ∷ s) t = value_from-append (n * 10 + (c - 48)) s t

value-digits : (f n : ℕ) → n < f → value_from 0 (digits f n) ≡ n
unfolding digits value_from
value-digits zero n h = absurd (omega arith)
value-digits (suc f) n h = elim (Bool-cases (ltb n 10)) [
  | inl small ↦ rw small (omega arith)
  | inr big ↦
      rw (big, value_from-append 0 (digits f (n / 10)), value-digits f (n / 10) (ground arith))
        (ground arith)
]

-- Distinct numbers are written differently.
pub str_injective : (m n : ℕ) → str m ≡ str n → m ≡ n
unfolding str
str_injective m n h =
    sym (value-digits (suc m) m (omega arith))
    ∙ ap (value_from 0) h
    ∙ value-digits (suc n) n (omega arith)

abbrev pub IsDigit : ℕ → Type 0
IsDigit c = (48 ≤ c) × (c ≤ 57)

digits-IsDigit : (f n : ℕ) → All IsDigit (digits f n)
unfolding digits
digits-IsDigit zero n = tt
digits-IsDigit (suc f) n = elim (Bool-cases (ltb n 10)) [
  | inl small ↦ rw small (ground arith)
  | inr big ↦ rw big (
      All-append IsDigit (digits f (n / 10)) ((48 + n % 10) ∷ []) (digits-IsDigit f (n / 10))
        (omega arith))
]

-- A number is written in digits only.
pub str-IsDigit : (n : ℕ) → All IsDigit (str n)
unfolding str
str-IsDigit n = digits-IsDigit (suc n) n

nonempty_append : (s : Text) (c : ℕ) → is_empty (s ++ c ∷ []) ≡ false
unfolding is_empty
nonempty_append [] c = refl
nonempty_append (d ∷ s) c = refl

-- A number is written with at least one digit.
pub str-nonempty : (n : ℕ) → is_empty (str n) ≡ false
unfolding str digits is_empty
str-nonempty n = elim (Bool-cases (ltb n 10)) [
  | inl small ↦ rw small refl
  | inr big ↦ rw big (nonempty_append (digits n (n / 10)) (48 + n % 10))
]
