-- ===== src/Examples/Guards.antt =====
-- The login guard on the failures of one account.
use bookmarks_api.Prelude.{
  false, true, arith, ℕ, ◌≤◌, ◌<◌, ◌+◌, ◌≡◌, ◌≢◌, ◌↔◌, refl, max, length, [], ◌∷◌,
}
use bookmarks_api.Text.{
  Text, codes, strip, lstrip, rstrip, is_space, is_empty, text_eq, text_eq_iff,
}
use bookmarks_api.Text.Casing.{ascii, ascii_lower}
use bookmarks_api.Dict.{get, put}
use bookmarks_api.Result.{ok, raise, app}
use bookmarks_api.LoginGuard.{Guard, init_guard, key, assert_not_locked, record_failure}
use bookmarks_api.LoginGuard.Lockout.{last_time, record_failures, lockout_iff}
use bookmarks_api.LoginGuard.Reach.{start, fail, refusal, assert_not_locked-refusal}

-- Two failures lock an account for three seconds.
abbrev new_guard : Guard
new_guard = init_guard 2 3

abbrev ada : Text
ada = codes "ada@a.example"

abbrev bob : Text
bob = codes "bob@a.example"

abbrev locked_guard : Guard
locked_guard = record_failure ascii (record_failure ascii new_guard ada 5) ada 5

false_ne_true : false ≡ true → ⊥
false_ne_true h = cc

ada_ne_bob : key ascii ada ≢ key ascii bob
unfolding codes ascii_lower strip lstrip rstrip is_space is_empty text_eq
ada_ne_bob e =
    let same : false ≡ true = (text_eq_iff (key ascii ada) (key ascii bob)).1 e in
    false_ne_true same

lockout_iff_example :
    (assert_not_locked ascii (record_failures ascii ada new_guard (1 ∷ 2 ∷ [])) ada 3 ≢ ok tt) ↔ (
      (new_guard.max_failures ≤ 1 + length {A = ℕ} (2 ∷ []))
      × (3 < last_time 1 (2 ∷ []) + new_guard.lockout))
unfolding get init_guard
lockout_iff_example = lockout_iff ascii ada new_guard 1 (2 ∷ []) 3 refl (omega arith) (omega arith)

assert_not_locked-refusal_example :
    (n : ℕ) × (assert_not_locked ascii locked_guard ada 5 ≡ raise (app (refusal ascii 2 3 n)))
    × (1 ≤ n)
    × (n ≤ max 1 3)
unfolding codes ascii_lower strip lstrip rstrip is_space is_empty text_eq get put init_guard
    record_failure assert_not_locked
assert_not_locked-refusal_example =
    assert_not_locked-refusal ascii 2 3 ada (fail ada (fail ada (start 5))) (λ e. cc)
