-- ===== src/Connector/Backoff/Waits.antt =====
-- From the Retry-After header of a response (internal/teams/client/messages.go) to the delay of a
-- poll (pkg/connector/poll_backoff.go).
use matrix_teams.Prelude.{
  ℕ, ◌*◌, ◌^◌, ◌<◌, ◌≡◌, refl, arith, false, Option, ℤ, pos, mul64_pos, add64, is_nil, Text, [],
  ◌∷◌, ◌≢◌,
}
use matrix_teams.Go.Strconv.{format_uint}
use matrix_teams.Go.Strconv.Digits.{format_uint-ne-nil}
use matrix_teams.Go.Strconv.RoundTrip.{parse_int-format_uint}
use matrix_teams.Client.Errors.{as_retryable}
use matrix_teams.Client.Responses.{classify_response, parse_retry_after, parse_seconds}
use matrix_teams.Connector.Backoff.{PollBackoff, retry_after, apply_poll_backoff}
use matrix_teams.Connector.Backoff.Outcomes.{asked_wait}

is_nil-ne : (s : Text) → s ≢ [] → is_nil s ≡ false
is_nil-ne [] h = elim (h refl) [ ]
is_nil-ne (c ∷ s) h = refl

-- A header of n seconds is read as n seconds, in nanoseconds.
pub parse_retry_after-format_uint :
    (until : Text → Option ℤ) (n : ℕ)
    → n * 1_000_000_000 < 2 ^ 63
    → parse_retry_after until (format_uint n) ≡ pos (n * 1_000_000_000)
unfolding parse_retry_after parse_seconds
parse_retry_after-format_uint until n h =
    rw (is_nil-ne (format_uint n) (format_uint-ne-nil n), parse_int-format_uint n (omega arith))
      (mul64_pos n 1_000_000_000 h)

-- A response of status 429 whose header asks for n seconds, with n positive and in range, makes the
-- next poll wait for n seconds, whatever the delay was, and counts as a failure.
pub header_wait :
    (until : Text → Option ℤ) (b : PollBackoff) (ingested : ℤ) (n : ℕ)
    → 0 < n
    → n * 1_000_000_000 < 2 ^ 63
    → apply_poll_backoff b ingested
        (classify_response until (record { status = 429; retry_after_header = format_uint n }))
      ≡ (
        record { failures = add64 b.failures (pos 1); delay = pos (n * 1_000_000_000) },
        retry_after,
      )
unfolding classify_response
header_wait until b ingested n p h = asked_wait b ingested _ (pos (n * 1_000_000_000)) (
  record { status = 429; retry_after = parse_retry_after until (format_uint n) },
  unfold as_retryable in refl,
  refl,
  rw (parse_retry_after-format_uint until n h) (omega arith),
  parse_retry_after-format_uint until n h,
)
