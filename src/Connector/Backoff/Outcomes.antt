-- ===== src/Connector/Backoff/Outcomes.antt =====
-- `ApplyPollBackoff` of pkg/connector/poll_backoff.go: which outcome gives which reason and delay,
-- and what a run of outcomes keeps.
use matrix_teams.Prelude.{
  ℕ, suc, ◌+◌, ◌^◌, ◌≤◌, ◌<◌, ◌≡◌, refl, Option, none, some, List, [], ◌∷◌, inl, inr, arith,
  Option-cases, Bool-cases, ltb_ℤ, add64_pos, ◌==◌, ◌&&◌, ℤ, pos, negsuc, pos_part, neg_part, ◌<ℤ◌,
  ◌≤ℤ◌, add64, length, All,
}
use native.Mathlib.Nat.{one-le-pow}
use matrix_teams.Client.Errors.{
  RetryableError, MessagesError, TeamsError, as_retryable, as_messages,
}
use matrix_teams.Connector.Backoff.{
  PollBackoff, initial, retry_after, apply_poll_backoff, apply_error, apply_retryable,
  apply_messages, on_failure, on_retry_after, on_success, on_idle, fail, is_client_4xx_non_429,
}
use matrix_teams.Connector.Backoff.Delays.{on_failure_lem}

-- The server asks for a wait: the error is retryable, its status is 429, its delay is positive.
abbrev pub AsksToWait : Option TeamsError → ℤ → Type 0
AsksToWait none d = ⊥
AsksToWait (some e) d =
    (r : RetryableError) × (as_retryable e ≡ some r)
    × (r.status ≡ 429)
    × (pos 0 <ℤ r.retry_after)
    × (r.retry_after ≡ d)

-- Where the server asks for a wait of d, the delay is d, the failure counts, and the reason is
-- `retry_after`.
pub asked_wait :
    (b : PollBackoff) (n : ℤ) (err : Option TeamsError) (d : ℤ)
    → AsksToWait err d
    → apply_poll_backoff b n err
      ≡ (record { failures = add64 b.failures (pos 1); delay = d }, retry_after)
unfolding apply_poll_backoff
asked_wait b n none d h = absurd h
asked_wait b n (some e) d (r, found, status, positive, same) =
    rw (found, apply_error) (ground arith)

-- Without a retryable error in the chain the reason is another.
apply_messages-ne :
    (b : PollBackoff) (m : Option MessagesError) → (apply_messages b m).1 ≡ retry_after → ⊥
unfolding apply_messages
apply_messages-ne b none h = cc
apply_messages-ne b (some m) h = ground arith

apply_retryable-asks :
    (b : PollBackoff) (r : RetryableError)
    → (apply_retryable b r).1 ≡ retry_after
    → (r.status ≡ 429) × (pos 0 <ℤ r.retry_after) × (r.retry_after ≡ (apply_retryable b r).0.delay)
unfolding apply_retryable
apply_retryable-asks b r h = ground arith

-- The reason `retry_after` is given only where the server asks for a wait, and the delay is the one
-- asked for.
pub retry_after-AsksToWait :
    (b : PollBackoff) (n : ℤ) (err : Option TeamsError)
    → (apply_poll_backoff b n err).1 ≡ retry_after
    → AsksToWait err (apply_poll_backoff b n err).0.delay
unfolding apply_poll_backoff
retry_after-AsksToWait b n none h = ground arith
retry_after-AsksToWait b n (some e) h = elim (Option-cases (as_retryable e)) [
  | inl e0 ↦ absurd (apply_messages-ne b (as_messages e) (rw (e0, apply_error) at h))
  | inr (r, found) ↦
      let (s, p, d) = apply_retryable-asks b r (rw (found, apply_error) at h) in
      (r, found, s, p, rw (found, apply_error) d)
]

-- A backoff that counts n failures at most and waits for a positive time.
pub record IsPaced (n : ℕ) (b : PollBackoff) : Type 0 where
  pub counted : neg_part b.failures ≡ 0
  pub few : pos_part b.failures ≤ n
  pub positive : pos 0 <ℤ b.delay
  pub bounded : b.delay ≤ℤ pos (2 ^ 62)

-- A server may ask for a wait of 2^62 nanoseconds at most.
abbrev pub IsFair : Option TeamsError → Type 0
IsFair err = (d : ℤ) → AsksToWait err d → d ≤ℤ pos (2 ^ 62)

on_idle-IsPaced : (n : ℕ) (b : PollBackoff) → IsPaced n b → IsPaced (n + 1) (on_idle b)
unfolding on_idle
on_idle-IsPaced n b h = ground arith

on_failure-IsPaced :
    (n : ℕ) (f d : ℤ)
    → n < 33
    → IsPaced n (record { failures = f; delay = d })
    → IsPaced (n + 1) (on_failure (record { failures = f; delay = d }))
on_failure-IsPaced n (pos f) d k h =
    rw (on_failure_lem f d (omega arith)) (omega (arith, one-le-pow f 2 (omega arith)))
on_failure-IsPaced n (negsuc f) d k h = absurd (omega arith)

apply_messages-IsPaced :
    (n : ℕ) (b : PollBackoff) (m : Option MessagesError)
    → n < 33
    → IsPaced n b
    → IsPaced (n + 1) (apply_messages b m).0
unfolding apply_messages fail
apply_messages-IsPaced n b none k h = on_failure-IsPaced n b.failures b.delay k h
apply_messages-IsPaced n b (some m) k h = elim (Bool-cases (is_client_4xx_non_429 m.status)) [
  | inl e ↦ rw e (omega arith)
  | inr e ↦ rw e (on_failure-IsPaced n b.failures b.delay k h)
]

on_retry_after-IsPaced :
    (n : ℕ) (f d w : ℤ)
    → n < 33
    → IsPaced n (record { failures = f; delay = d })
    → pos 0 <ℤ w
    → w ≤ℤ pos (2 ^ 62)
    → IsPaced (n + 1) (on_retry_after (record { failures = f; delay = d }) w)
unfolding on_retry_after
on_retry_after-IsPaced n (pos f) d w k h p q = ground (arith, add64_pos f 1)
on_retry_after-IsPaced n (negsuc f) d w k h p q = absurd (omega arith)

apply_retryable-IsPaced :
    (n : ℕ) (b : PollBackoff) (r : RetryableError)
    → n < 33
    → IsPaced n b
    → (r.status ≡ 429 → pos 0 <ℤ r.retry_after → r.retry_after ≤ℤ pos (2 ^ 62))
    → IsPaced (n + 1) (apply_retryable b r).0
unfolding apply_retryable fail
apply_retryable-IsPaced n b r k h fair =
    elim (Bool-cases (r.status == 429 && ltb_ℤ (pos 0) r.retry_after)) [
      | inl e ↦
          let s : r.status ≡ 429 = ground arith in
          let p : pos 0 <ℤ r.retry_after = ground arith in
          rw e (on_retry_after-IsPaced n b.failures b.delay r.retry_after k h p (fair s p))
      | inr e ↦ rw e (on_failure-IsPaced n b.failures b.delay k h)
    ]

apply_poll_backoff-IsPaced :
    (n : ℕ) (b : PollBackoff) (ingested : ℤ) (err : Option TeamsError)
    → n < 33
    → IsPaced n b
    → IsFair err
    → IsPaced (n + 1) (apply_poll_backoff b ingested err).0
unfolding apply_poll_backoff
apply_poll_backoff-IsPaced n b ingested none k h fair = elim (Bool-cases (ltb_ℤ (pos 0) ingested)) [
  | inl e ↦ rw e (unfold on_success in omega arith)
  | inr e ↦ rw e (on_idle-IsPaced n b h)
]
apply_poll_backoff-IsPaced n b ingested (some e) k h fair = elim (Option-cases (as_retryable e)) [
  | inl e0 ↦ rw (e0, apply_error) (apply_messages-IsPaced n b (as_messages e) k h)
  | inr (r, found) ↦
      rw (found, apply_error)
        (apply_retryable-IsPaced n b r k h (λ s p. fair r.retry_after (r, found, s, p, refl)))
]

-- The backoff after a row of poll outcomes: messages ingested, and the error.
pub run : PollBackoff → List (ℤ × Option TeamsError) → PollBackoff
run b [] = b
run b ((ingested, err) ∷ rest) = run (apply_poll_backoff b ingested err).0 rest

run-IsPaced :
    (outcomes : List (ℤ × Option TeamsError)) (n : ℕ) (b : PollBackoff)
    → n + length outcomes ≤ 33
    → IsPaced n b
    → All (λ o. IsFair o.1) outcomes
    → IsPaced (n + length outcomes) (run b outcomes)
unfolding run
run-IsPaced [] n b k h fair = ground arith
run-IsPaced ((ingested, err) ∷ rest) n b k h (now, later) =
    let e : n + suc (length rest) ≡ n + 1 + length rest = omega arith in
    rw e (
      run-IsPaced rest (n + 1) _ (omega arith)
        (apply_poll_backoff-IsPaced n b ingested err (omega arith) h now) later)

-- From the delay that a thread starts with, after any row of at most 33 outcomes in which no server
-- asks for a wait above 2^62 nanoseconds, the next poll waits for a positive time of at most 2^62
-- nanoseconds, and no more failures are counted than there were polls.
pub run_positive :
    (outcomes : List (ℤ × Option TeamsError))
    → length outcomes ≤ 33
    → All (λ o. IsFair o.1) outcomes
    → (let b = run initial outcomes in
        (pos 0 <ℤ b.delay) × (b.delay ≤ℤ pos (2 ^ 62)) × (b.failures ≤ℤ pos (length outcomes)))
run_positive outcomes k fair =
    let paced : IsPaced (0 + length outcomes) (run initial outcomes) =
      run-IsPaced outcomes 0 initial (omega arith) (omega arith) fair in
    omega arith
