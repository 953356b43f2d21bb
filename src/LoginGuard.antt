-- ===== src/LoginGuard.antt =====
-- app/utils/login_guard/guard.py: the failure counter of each account, with lockout. The clock is
-- an argument, in whole microseconds.
pub mod Laws
pub mod Lockout
pub mod Reach
use bookmarks_api.Prelude.{
  ℕ, ◌+◌, ◌-◌, ◌*◌, ◌/◌, max, Option, none, some, List, [], ◌∷◌, ltb, leb, if◌then◌else◌,
}
use bookmarks_api.Text.{Text, codes, strip, str}
use bookmarks_api.Text.Casing.{Casing}
use bookmarks_api.Dict.{Dict, get, put, remove}
use bookmarks_api.Json.{num, end, field}
use bookmarks_api.Errors.{make_error, too_many_attempts_error}
use bookmarks_api.Result.{Result, ok, raise, app}

abbrev pub microseconds : ℕ
microseconds = 1000000

-- `_Entry`
pub record Entry : Type 0 where
  pub count : ℕ
  pub window_resets_at : ℕ
  pub locked_until : ℕ

abbrev pub fresh_entry : Entry
fresh_entry = record { count = 0; window_resets_at = 0; locked_until = 0 }

-- The fields that `InMemoryLoginGuard.__init__` sets, but for the clock and the mutex.
pub record Guard : Type 0 where
  pub max_failures : ℕ
  pub lockout : ℕ
  pub state : Dict Entry

-- `InMemoryLoginGuard.__init__`
unfoldable pub init_guard : ℕ → ℕ → Guard
init_guard max_failures lockout_seconds = record {
  max_failures = max 1 max_failures;
  lockout = lockout_seconds * microseconds;
  state = [];
}

abbrev pub entry_or_fresh : Option Entry → Entry
entry_or_fresh none = fresh_entry
entry_or_fresh (some entry) = entry

-- `max(1, math.ceil(entry.locked_until - now))`, in seconds
unfoldable pub retry_after : Entry → ℕ → ℕ
retry_after entry now = max 1 ((entry.locked_until - now + (microseconds - 1)) / microseconds)

-- The test of `assert_not_locked` on the entry of the account.
unfoldable pub check_entry : Option Entry → ℕ → Result (Unit {0})
unfolding retry_after
check_entry none now = ok tt
check_entry (some entry) now =
    if ltb now entry.locked_until
    then raise (
        app (
          make_error too_many_attempts_error
            (codes "Too many failed login attempts. Try again later.")
            (some (field (codes "retry_after_seconds") (num (retry_after entry now)) end))
            (some ((codes "Retry-After", str (retry_after entry now)) ∷ []))))
    else ok tt

-- `if now > entry.window_resets_at`
unfoldable pub roll_window : Guard → ℕ → Entry → Entry
roll_window guard now entry =
    if ltb entry.window_resets_at now
    then record entry { count = 0; window_resets_at = now + guard.lockout }
    else entry

-- `entry.count += 1`, and `if entry.count >= self._max`
unfoldable pub count_failure : Guard → ℕ → Entry → Entry
unfolding roll_window
count_failure guard now entry =
    let rolled = roll_window guard now entry in
    let count = rolled.count + 1 in
    if leb guard.max_failures count
    then record rolled { count = count; locked_until = now + guard.lockout }
    else record rolled { count = count }

module _ (casing : Casing) where
  -- `_key`
  abbrev pub key : Text → Text
  key identifier = casing.lower (strip identifier)

  unfoldable pub assert_not_locked : Guard → Text → ℕ → Result (Unit {0})
  unfolding check_entry
  assert_not_locked guard identifier now = check_entry (get (key identifier) guard.state) now

  unfoldable pub record_failure : Guard → Text → ℕ → Guard
  unfolding count_failure
  record_failure guard identifier now =
      let entry = entry_or_fresh (get (key identifier) guard.state) in
      record guard { state = put (key identifier) (count_failure guard now entry) guard.state }

  unfoldable pub record_success : Guard → Text → Guard
  record_success guard identifier = record guard { state = remove (key identifier) guard.state }

-- `clear`
unfoldable pub clear : Guard → Guard
clear guard = record guard { state = [] }
