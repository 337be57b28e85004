-- ===== src/Connector/Backoff/Examples.antt =====
-- Runs of pkg/connector/poll_backoff.go at concrete inputs.
use matrix_teams.Prelude.{
  ◌≡◌, ◌+◌, ◌*◌, ◌^◌, min, refl, arith, none, some, [], ◌∷◌, List, Option, ℤ, pos, ◌<ℤ◌, ◌≤ℤ◌,
  add64,
}
use matrix_teams.Client.Errors.{TeamsError, retryable, messages, other, as_retryable, wrapped}
use matrix_teams.Client.Responses.{classify_response}
use matrix_teams.Go.Strconv.{format_uint}
use matrix_teams.Connector.Backoff.Waits.{header_wait}
use matrix_teams.Connector.Backoff.{
  initial, on_success, on_failure, on_idle, apply_poll_backoff, retry_after, client_4xx,
}
use matrix_teams.Connector.Backoff.Delays.{failure_run, idle_run, iterate}
use matrix_teams.Connector.Backoff.Overflow.{failure_delay_vanishes}
use matrix_teams.Connector.Backoff.Outcomes.{
  asked_wait, retry_after-AsksToWait, AsksToWait, run, run_positive,
}

abbrev too_many : TeamsError
too_many = wrapped (retryable (record { status = 429; retry_after = pos 5 }))

test_client_4xx :
    apply_poll_backoff initial (pos 0) (some (messages (record { status = 404 })))
    ≡ (record { failures = pos 0; delay = pos 30_000_000_000 }, client_4xx)
unfolding apply_poll_backoff
test_client_4xx = refl

test_asked : (apply_poll_backoff initial (pos 0) (some too_many)).1 ≡ retry_after
unfolding apply_poll_backoff
test_asked = refl

test_failure_run :
    iterate 4 on_failure (on_success initial)
    ≡ record { failures = pos (3 + 1); delay = pos (min (2_000_000_000 * 2 ^ 3) 60_000_000_000) }
test_failure_run = failure_run 3 initial (omega arith)

test_idle_run :
    iterate 2 on_idle (on_success initial)
    ≡ record { failures = pos 0; delay = pos (min (2_000_000_000 * (2 + 1)) 30_000_000_000) }
test_idle_run = idle_run 2 initial

failure_delay_vanishes_example :
    (on_failure (record { failures = pos 60; delay = pos 0 })).delay ≡ pos 0
failure_delay_vanishes_example = failure_delay_vanishes 60 (pos 0) (omega arith) (omega arith)

test_asked_wait :
    apply_poll_backoff initial (pos 0) (some too_many)
    ≡ (record { failures = add64 (pos 0) (pos 1); delay = pos 5 }, retry_after)
unfolding as_retryable
test_asked_wait =
    asked_wait initial (pos 0) (some too_many) (pos 5)
      (record { status = 429; retry_after = pos 5 }, refl, refl, omega arith, refl)

test_retry_after_AsksToWait :
    AsksToWait (some too_many) (apply_poll_backoff initial (pos 0) (some too_many)).0.delay
test_retry_after_AsksToWait = retry_after-AsksToWait initial (pos 0) (some too_many) test_asked

no_request : (d : ℤ) → ¬ AsksToWait (some other) d
unfolding as_retryable
no_request d (r, found, s, p, e) = cc

abbrev outcomes : List (ℤ × Option TeamsError)
outcomes = (pos 3, none) ∷ (pos 0, some other) ∷ (pos 0, none) ∷ []

run_positive_example :
    (pos 0 <ℤ (run initial outcomes).delay)
    × ((run initial outcomes).delay ≤ℤ pos (2 ^ 62))
    × ((run initial outcomes).failures ≤ℤ pos 3)
unfolding as_retryable
run_positive_example =
    run_positive outcomes (omega arith)
      ((λ d h. absurd h), ((λ d h. absurd (no_request d h)), ((λ d h. absurd h), tt)))

test_header_wait :
    apply_poll_backoff initial
      (pos 0)
      (classify_response (λ t. none) (record { status = 429; retry_after_header = format_uint 90 }))
    ≡ (record { failures = add64 (pos 0) (pos 1); delay = pos (90 * 1_000_000_000) }, retry_after)
test_header_wait = header_wait (λ t. none) initial (pos 0) 90 (omega arith) (omega arith)
