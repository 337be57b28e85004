-- ===== src/Connector/Backoff/Delays.antt =====
-- What the backoff of pkg/connector/poll_backoff.go does while the counters stay in range: the
-- exponential sequence of a run of failures, the linear one of a run of idle polls.
use matrix_teams.Prelude.{
  ℕ, zero, suc, ◌+◌, ◌*◌, ◌^◌, ◌≤◌, ◌<◌, min, ◌≡◌, arith, ℤ, pos, two_pow_mono, add64, sub64, mul64,
  shl64,
}
use matrix_teams.Connector.Backoff.{
  PollBackoff, on_success, on_idle, on_failure, failure_delay, cap_failure,
}

-- 2^n stays below 2^32, which leaves room for the factor of two seconds.
small_power : (n : ℕ) → n < 33 → 2 ^ n ≤ 2 ^ 32
small_power n h = two_pow_mono n 32 (omega arith)

failure_delay_lem : (n : ℕ) → n < 33 → failure_delay (pos (suc n)) ≡ pos (2_000_000_000 * 2 ^ n)
unfolding failure_delay mul64 shl64 sub64
failure_delay_lem zero h = ground arith
failure_delay_lem (suc n) h = ground (arith, small_power (suc n) h)

-- From a count of fewer than 33 failures, one more failure counts up by one and sets the delay to
-- two seconds doubled as often as there were failures before, and to one minute where that is less.
pub on_failure_lem :
    (n : ℕ) (d : ℤ)
    → n < 33
    → on_failure (record { failures = pos n; delay = d })
      ≡ record { failures = pos (n + 1); delay = pos (min (2_000_000_000 * 2 ^ n) 60_000_000_000) }
unfolding on_failure cap_failure add64
on_failure_lem n d h = ground (arith, failure_delay_lem n h)

-- A run of failures, of idle polls, or of any one method.
pub iterate {ℓ} : {A : Type ℓ} → ℕ → (A → A) → A → A
iterate zero f a = a
iterate (suc n) f a = f (iterate n f a)

abbrev start : ℤ → ℤ → PollBackoff
start f d = record { failures = f; delay = d }

-- After a poll that brought messages, up to 33 failures in a row: the n + 1st sets the delay to the
-- lesser of 2^n times two seconds and one minute.
pub failure_run :
    (n : ℕ) (b : PollBackoff)
    → n < 33
    → iterate (suc n) on_failure (on_success b)
      ≡ record { failures = pos (n + 1); delay = pos (min (2_000_000_000 * 2 ^ n) 60_000_000_000) }
unfolding iterate on_success
failure_run zero b h = on_failure_lem 0 _ h
failure_run (suc n) b h =
    let e : n + 1 ≡ suc n = omega arith in
    rw (failure_run n b (omega arith), e) (on_failure_lem (suc n) _ h)

-- After a poll that brought messages, n idle polls in a row set the delay to n + 1 times two
-- seconds, and to thirty seconds where that is less, and leave no failure counted.
pub idle_run :
    (n : ℕ) (b : PollBackoff)
    → iterate n on_idle (on_success b)
      ≡ record { failures = pos 0; delay = pos (min (2_000_000_000 * (n + 1)) 30_000_000_000) }
unfolding iterate on_success on_idle
idle_run zero b = ground arith
idle_run (suc n) b = rw (idle_run n b) (ground arith)
