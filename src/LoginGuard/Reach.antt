-- ===== src/LoginGuard/Reach.antt =====
-- On app/utils/login_guard/guard.py: the guards that the calls of a process can reach.
use bookmarks_api.Prelude.{
  ℕ, ◌+◌, ◌*◌, ◌≤◌, ◌≡◌, ◌≢◌, refl, Option, none, some, [], ◌∷◌, arith, ltb, max, Bool-cases, inl,
  inr,
}
use bookmarks_api.Text.{Text, codes, str}
use bookmarks_api.Text.Casing.{Casing}
use bookmarks_api.Dict.{Dict, get, put, remove, get-put, get-remove}
use bookmarks_api.Json.{num, end, field}
use bookmarks_api.Errors.{AppError, make_error, too_many_attempts_error}
use bookmarks_api.Result.{ok, raise, app}
use bookmarks_api.LoginGuard.{
  Guard, Entry, entry_or_fresh, key, check_entry, retry_after, count_failure, assert_not_locked,
  record_failure, record_success, init_guard, clear, microseconds,
}

-- An update keeps a bound on the time of every lock.
put-bounded :
    (b : ℕ) (k : Text) (new : Entry) (state : Dict Entry)
    → new.locked_until ≤ b
    → ((j : Text) (e : Entry) → get j state ≡ some e → e.locked_until ≤ b)
    → (j : Text) (e : Entry) → get j (put k new state) ≡ some e
    → e.locked_until ≤ b
put-bounded b k new state h all j e found = ground (arith, get-put k j new state, all j e)

remove-bounded :
    (b : ℕ) (k : Text) (state : Dict Entry)
    → ((j : Text) (e : Entry) → get j state ≡ some e → e.locked_until ≤ b)
    → (j : Text) (e : Entry) → get j (remove k state) ≡ some e
    → e.locked_until ≤ b
remove-bounded b k state all j e found = ground (arith, get-remove k j state, all j e)

module _ (casing : Casing) (max_failures lockout_seconds : ℕ) where
  -- The guards of a process and the time of the last call: the clock never goes back.
  pub data Reach : Guard → ℕ → Type 0 where
    start : (now : ℕ) → Reach (init_guard max_failures lockout_seconds) now
    wait : {g : Guard} {now : ℕ} (later : ℕ) → Reach g now → now ≤ later → Reach g later
    fail :
        {g : Guard} {now : ℕ} (who : Text)
        → Reach g now
        → Reach (record_failure casing g who now) now
    succeed :
        {g : Guard} {now : ℕ} (who : Text) → Reach g now → Reach (record_success casing g who) now
    clear_all : {g : Guard} {now : ℕ} → Reach g now → Reach (clear g) now

  -- No account is locked for longer than the lockout.
  pub record IsValid (g : Guard) (now : ℕ) : Type 0 where
    pub lockout : g.lockout ≡ lockout_seconds * microseconds
    pub bounded :
        (k : Text) (entry : Entry)
        → get k g.state ≡ some entry
        → entry.locked_until ≤ now + lockout_seconds * microseconds

  count_failure-le :
      (g : Guard) (now : ℕ) (entry : Entry)
      → g.lockout ≡ lockout_seconds * microseconds
      → entry.locked_until ≤ now + lockout_seconds * microseconds
      → (count_failure g now entry).locked_until ≤ now + lockout_seconds * microseconds
  unfolding count_failure
  count_failure-le g now entry e h = ground arith

  entry_or_fresh-le :
      {g : Guard} {now : ℕ} (k : Text) (found : Option Entry)
      → IsValid g now
      → get k g.state ≡ found
      → (entry_or_fresh found).locked_until ≤ now + lockout_seconds * microseconds
  entry_or_fresh-le k none v e = omega arith
  entry_or_fresh-le k (some entry) v e = v.bounded k entry e

  record_failure-IsValid :
      (g : Guard) (now : ℕ) (who : Text)
      → IsValid g now
      → IsValid (record_failure casing g who now) now
  unfolding record_failure
  record_failure-IsValid g now who v = record {
    lockout = v.lockout;
    bounded =
        put-bounded (now + lockout_seconds * microseconds) (key casing who)
          (count_failure g now (entry_or_fresh (get (key casing who) g.state))) g.state
          (count_failure-le g now _ v.lockout (entry_or_fresh-le (key casing who) _ v refl))
          v.bounded;
  }

  record_success-IsValid :
      (g : Guard) (now : ℕ) (who : Text) → IsValid g now → IsValid (record_success casing g who) now
  unfolding record_success
  record_success-IsValid g now who v = record {
    lockout = v.lockout;
    bounded =
        remove-bounded (now + lockout_seconds * microseconds) (key casing who) g.state v.bounded;
  }

  pub Reach-IsValid : {g : Guard} {now : ℕ} → Reach g now → IsValid g now
  unfolding init_guard clear get
  Reach-IsValid (start now) = record { lockout = refl; bounded = λ k entry found. cc }
  Reach-IsValid (wait later r le) =
      let v = Reach-IsValid r in
      record {
        lockout = v.lockout;
        bounded = λ k entry found. omega (arith, v.bounded k entry found);
      }
  Reach-IsValid (fail who r) = record_failure-IsValid _ _ who (Reach-IsValid r)
  Reach-IsValid (succeed who r) = record_success-IsValid _ _ who (Reach-IsValid r)
  Reach-IsValid (clear_all r) = record {
    lockout = (Reach-IsValid r).lockout;
    bounded = λ k entry found. cc;
  }

  -- What a refusal carries for a wait of `n` seconds.
  abbrev pub refusal : ℕ → AppError
  refusal n =
      make_error too_many_attempts_error (codes "Too many failed login attempts. Try again later.")
        (some (field (codes "retry_after_seconds") (num n) end))
        (some ((codes "Retry-After", str n) ∷ []))

  refused_entry :
      (found : Option Entry) (now : ℕ)
      → ((e : Entry) → found ≡ some e → e.locked_until ≤ now + lockout_seconds * microseconds)
      → check_entry found now ≢ ok tt
      → (n : ℕ) × (check_entry found now ≡ raise (app (refusal n)))
        × (1 ≤ n)
        × (n ≤ max 1 lockout_seconds)
  unfolding check_entry
  refused_entry none now h refused = absurd (refused refl)
  refused_entry (some e) now h refused = elim (Bool-cases (ltb now e.locked_until)) [
    | inl locked ↦ (retry_after e now, rw locked, omega arith, omega (arith, h e refl))
    | inr open_ ↦ absurd (refused (rw open_))
  ]

  -- In every reachable guard a call is let through, or is refused with a wait of at least one
  -- second and at most the configured lockout, in the details and in the `Retry-After` header.
  pub assert_not_locked-refusal :
      {g : Guard} {now : ℕ} (who : Text)
      → Reach g now
      → assert_not_locked casing g who now ≢ ok tt
      → (n : ℕ) × (assert_not_locked casing g who now ≡ raise (app (refusal n)))
        × (1 ≤ n)
        × (n ≤ max 1 lockout_seconds)
  unfolding assert_not_locked
  assert_not_locked-refusal {g} {now} who r refused =
      refused_entry (get (key casing who) g.state) now
        (λ e found. (Reach-IsValid r).bounded (key casing who) e found) refused
