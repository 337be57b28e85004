-- ===== src/Connector/Backoff.antt =====
-- pkg/connector/poll_backoff.go: the delay between two polls of a thread. A `time.Duration` is an
-- integer of nanoseconds in 64 bits, and so is the `int` that counts the failures.
pub mod Delays
pub mod Overflow
pub mod Outcomes
pub mod Waits
mod Examples
use matrix_teams.Prelude.{
  ℕ, ◌-◌, ◌≡◌, Bool, true, false, not, ◌&&◌, ◌||◌, Option, none, some, ltb, leb, ◌==◌,
  if◌then◌else◌, ℤ, pos, negsuc, pos_part, neg_part, leb_ℤ, ltb_ℤ, add64, sub64, mul64, shl64,
}
use matrix_teams.Client.Errors.{
  RetryableError, MessagesError, TeamsError, as_retryable, as_messages,
}

abbrev pub poll_base_delay : ℤ
poll_base_delay = pos 2_000_000_000

abbrev pub poll_idle_cap : ℤ
poll_idle_cap = pos 30_000_000_000

abbrev pub poll_failure_cap : ℤ
poll_failure_cap = pos 60_000_000_000

pub record PollBackoff : Type 0 where
  pub failures : ℤ
  pub delay : ℤ

-- PollBackoff{Delay: pollBaseDelay}, with which a thread starts.
abbrev pub initial : PollBackoff
initial = record { failures = pos 0; delay = poll_base_delay }

-- The methods change `*b`: each returns the new value.
ensure_base_delay : PollBackoff → PollBackoff
ensure_base_delay b = if leb_ℤ b.delay (pos 0) then record b { delay = poll_base_delay } else b

pub on_success : PollBackoff → PollBackoff
on_success b = record { failures = pos 0; delay = poll_base_delay }

pub on_idle : PollBackoff → PollBackoff
unfolding ensure_base_delay add64
on_idle b =
    let current = (ensure_base_delay b).delay in
    let next = add64 current poll_base_delay in
    record { failures = pos 0; delay = if ltb_ℤ poll_idle_cap next then poll_idle_cap else next }

-- The delay of `OnFailure` for a count of failures, before and after the cap.
failure_delay : ℤ → ℤ
unfolding mul64 shl64 sub64
failure_delay failures =
    if ltb_ℤ (pos 1) failures
    then mul64 poll_base_delay (shl64 (pos 1) (pos_part (sub64 failures (pos 1))))
    else poll_base_delay

cap_failure : ℤ → ℤ
cap_failure delay = if ltb_ℤ poll_failure_cap delay then poll_failure_cap else delay

pub on_failure : PollBackoff → PollBackoff
unfolding failure_delay cap_failure add64
on_failure b =
    let failures = add64 b.failures (pos 1) in
    record { failures = failures; delay = cap_failure (failure_delay failures) }

pub on_retry_after : PollBackoff → ℤ → PollBackoff
unfolding on_failure add64
on_retry_after b d =
    if leb_ℤ d (pos 0)
    then on_failure b
    else record { failures = add64 b.failures (pos 1); delay = d }

pub data PollBackoffReason : Type 0 where
  success idle retry_after failure client_4xx : PollBackoffReason

is_client_4xx_non_429 : ℕ → Bool
is_client_4xx_non_429 status = leb 400 status && ltb status 500 && not (status == 429)

-- The two `errors.As` tests on an error, in the code's order.
fail : PollBackoff → PollBackoff × PollBackoffReason
unfolding on_failure
fail b = (on_failure b, failure)

apply_retryable : PollBackoff → RetryableError → PollBackoff × PollBackoffReason
unfolding on_retry_after fail
apply_retryable b r =
    if r.status == 429 && ltb_ℤ (pos 0) r.retry_after
    then (on_retry_after b r.retry_after, retry_after)
    else fail b

apply_messages : PollBackoff → Option MessagesError → PollBackoff × PollBackoffReason
unfolding is_client_4xx_non_429 fail
apply_messages b none = fail b
apply_messages b (some m) =
    if is_client_4xx_non_429 m.status
    then (record { failures = pos 0; delay = poll_idle_cap }, client_4xx)
    else fail b

apply_error : PollBackoff → TeamsError → PollBackoff × PollBackoffReason
unfolding apply_retryable apply_messages as_messages as_retryable
apply_error b err = elim (as_retryable err) [
  | some r ↦ apply_retryable b r
  | none ↦ apply_messages b (as_messages err)
]

-- ApplyPollBackoff on a backoff that is not nil; the delay that it returns is that of the new value.
unfoldable pub apply_poll_backoff :
    PollBackoff → ℤ → Option TeamsError → PollBackoff × PollBackoffReason
unfolding on_success on_idle apply_error
apply_poll_backoff b messages_ingested none =
    if ltb_ℤ (pos 0) messages_ingested then (on_success b, success) else (on_idle b, idle)
apply_poll_backoff b messages_ingested (some err) = apply_error b err
