-- ===== src/LoginGuard/Lockout.antt =====
-- On app/utils/login_guard/guard.py: a run of failures of one account in one window.
use bookmarks_api.Prelude.{
  ℕ, suc, ◌+◌, ◌≤◌, ◌<◌, ◌≡◌, ◌≢◌, refl, ap, ◌∙◌, ◌↔◌, none, some, List, [], ◌∷◌, arith, leb,
  if◌then◌else◌, All, length,
}
use bookmarks_api.Text.{Text}
use bookmarks_api.Text.Casing.{Casing}
use bookmarks_api.Dict.{get, get-put_self}
use bookmarks_api.Result.{ok}
use bookmarks_api.LoginGuard.{
  Guard, Entry, fresh_entry, entry_or_fresh, key, check_entry, count_failure, assert_not_locked,
  record_failure,
}

-- The time of the last of one or more failures.
abbrev pub last_time : ℕ → List ℕ → ℕ
last_time first [] = first
last_time first (t ∷ times) = last_time t times

-- The guard's settings.
abbrev Has : Guard → ℕ → ℕ → Type 0
Has guard most lockout = (guard.max_failures ≡ most) × (guard.lockout ≡ lockout)

module _ (most lockout window : ℕ) where
  -- The entry after `n` failures of one window, the last of them at `last`.
  record IsCounted (n last : ℕ) (entry : Entry) : Type 0 where
    counted : entry.count ≡ n
    same_window : entry.window_resets_at ≡ window
    locked : entry.locked_until ≡ (if leb most n then last + lockout else 0)

  first-IsCounted :
      (guard : Guard) (first : ℕ)
      → Has guard most lockout
      → 0 < first
      → window ≡ first + lockout
      → IsCounted 1 first (count_failure guard first fresh_entry)
  unfolding count_failure
  first-IsCounted guard first s h e = ground arith

  next-IsCounted :
      (guard : Guard) (n last t : ℕ) (entry : Entry)
      → Has guard most lockout
      → IsCounted n last entry
      → t ≤ window
      → IsCounted (suc n) t (count_failure guard t entry)
  unfolding count_failure
  next-IsCounted guard n last t entry s c h = ground arith

  check_entry_iff :
      (n last now : ℕ) (entry : Entry)
      → IsCounted n last entry
      → (check_entry (some entry) now ≢ ok tt) ↔ ((most ≤ n) × (now < last + lockout))
  unfolding check_entry
  check_entry_iff n last now entry c = ground arith

module _ (casing : Casing) (identifier : Text) where
  -- Failures of the account at the times of a list.
  abbrev pub record_failures : Guard → List ℕ → Guard
  record_failures guard [] = guard
  record_failures guard (t ∷ times) =
      record_failures (record_failure casing guard identifier t) times

  entry_after :
      (guard : Guard) (t : ℕ)
      → get (key casing identifier) (record_failure casing guard identifier t).state
        ≡ some (count_failure guard t (entry_or_fresh (get (key casing identifier) guard.state)))
  unfolding record_failure
  entry_after guard t = get-put_self (key casing identifier) _ guard.state

  Has-after :
      (guard : Guard) (t most lockout : ℕ)
      → Has guard most lockout
      → Has (record_failure casing guard identifier t) most lockout
  unfolding record_failure
  Has-after guard t most lockout s = s

  assert_not_locked_lem :
      (guard : Guard) (now : ℕ)
      → assert_not_locked casing guard identifier now
        ≡ check_entry (get (key casing identifier) guard.state) now
  unfolding assert_not_locked
  assert_not_locked_lem guard now = refl

  record_failures_iff :
      (most lockout window n last now : ℕ) (times : List ℕ) (guard : Guard) (entry : Entry)
      → Has guard most lockout
      → get (key casing identifier) guard.state ≡ some entry
      → IsCounted most lockout window n last entry
      → All (λ t. t ≤ window) times
      → (assert_not_locked casing (record_failures guard times) identifier now ≢ ok tt)
        ↔ ((most ≤ n + length times) × (now < last_time last times + lockout))
  record_failures_iff most lockout window n last now [] guard entry s found c h =
      rw (assert_not_locked_lem guard now, found)
        (ground (arith, check_entry_iff most lockout window n last now entry c))
  record_failures_iff most lockout window n last now (t ∷ times) guard entry s found c (p, h) =
      let rest =
        record_failures_iff most lockout window (suc n) t now times
          (record_failure casing guard identifier t) (count_failure guard t entry)
          (Has-after guard t most lockout s)
          (entry_after guard t ∙ ap (λ e. some (count_failure guard t (entry_or_fresh e))) found)
          (next-IsCounted most lockout window guard n last t entry s c p) h in
      (λ e. ground (arith, rest.0 e), λ e. rest.1 (ground arith))

  -- An account with no entry, after failures at `first` and at the times `later`, none later than
  -- the window that the first one opens: it is refused exactly if there were as many failures as
  -- the guard allows, and only until the lockout has passed since the last of them.
  pub lockout_iff :
      (guard : Guard) (first : ℕ) (later : List ℕ) (now : ℕ)
      → get (key casing identifier) guard.state ≡ none
      → 0 < first
      → All (λ t. t ≤ first + guard.lockout) later
      → (assert_not_locked casing (record_failures guard (first ∷ later)) identifier now ≢ ok tt)
        ↔ ((guard.max_failures ≤ 1 + length later) × (now < last_time first later + guard.lockout))
  lockout_iff guard first later now none_yet h times =
      record_failures_iff guard.max_failures guard.lockout (first + guard.lockout) 1 first now later
        (record_failure casing guard identifier first) (count_failure guard first fresh_entry)
        (Has-after guard first _ _ (refl, refl))
        (entry_after guard first
          ∙ ap (λ e. some (count_failure guard first (entry_or_fresh e))) none_yet)
        (first-IsCounted guard.max_failures guard.lockout (first + guard.lockout) guard first
          (refl, refl) h refl)
        times
