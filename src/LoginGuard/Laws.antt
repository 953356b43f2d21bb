-- ===== src/LoginGuard/Laws.antt =====
-- On the calls of app/utils/login_guard/guard.py for one account and for another.
use bookmarks_api.Prelude.{ℕ, ◌≡◌, ◌≢◌, ap}
use bookmarks_api.Text.{Text, text_eq_refl}
use bookmarks_api.Text.Casing.{Casing}
use bookmarks_api.Dict.{get, get-put_ne, get-remove, get-remove_ne}
use bookmarks_api.Result.{ok}
use bookmarks_api.LoginGuard.{
  Guard, entry_or_fresh, key, check_entry, count_failure, assert_not_locked, record_failure,
  record_success,
}

module _ (casing : Casing) (guard : Guard) where
  -- After a success the account is not locked, whatever it was before and whatever the time.
  pub record_success-unlocks :
      (identifier : Text) (now : ℕ)
      → assert_not_locked casing (record_success casing guard identifier) identifier now ≡ ok tt
  unfolding assert_not_locked record_success
  record_success-unlocks identifier now =
      let k = key casing identifier in rw (get-remove k k guard.state, text_eq_refl k)

  pub assert_not_locked_other :
      (a b : Text) (then_ now : ℕ)
      → key casing a ≢ key casing b
      → (assert_not_locked casing (record_failure casing guard a then_) b now
          ≡ assert_not_locked casing guard b now)
        × (assert_not_locked casing (record_success casing guard a) b now
            ≡ assert_not_locked casing guard b now)
  unfolding assert_not_locked record_failure record_success
  assert_not_locked_other a b then_ now h =
      let entry = entry_or_fresh (get (key casing a) guard.state) in
      (
        ap (λ e. check_entry e now)
            (get-put_ne (key casing a) (key casing b) (count_failure guard then_ entry) guard.state
              h),
        ap (λ e. check_entry e now) (get-remove_ne (key casing a) (key casing b) guard.state h),
      )
