-- ===== src/Client/Executor/Examples.antt =====
-- Runs of the executor: a server that counts its requests and is busy for the first two.
use matrix_teams.Prelude.{
  ℕ, suc, ◌+◌, ◌*◌, ◌^◌, ◌≤◌, ◌≡◌, refl, min, true, false, none, some, inr, arith, ltb,
  if◌then◌else◌, ℤ, pos, negsuc, codes, mul64, [],
}
use matrix_teams.Client.Errors.{as_retryable}
use matrix_teams.Client.Responses.{Response, classify_response, parse_retry_after}
use matrix_teams.Client.Executor.{
  TeamsRequestExecutor, Request, Outside, returned, plain_backoff, retry_limit, do_request, turn,
}
use matrix_teams.Go.Strconv.{parse_int}
use matrix_teams.Client.Executor.Retries.{do_request-ends, IsAnswer, Counts}
use matrix_teams.Client.Executor.Pauses.{plain_backoff_lem}

abbrev busy : Response
busy = record { status = 429; retry_after_header = codes "1" }

abbrev fine : Response
fine = record { status = 201; retry_after_header = [] }

-- The state is the number of requests so far.
abbrev server : Outside ℕ Response
server = record {
  ctx_err = λ s. none;
  get_body = λ s. (false, s);
  http = λ s. (inr (if ltb s 2 then busy else fine), s + 1);
  jitter = λ d s. (d, s);
  sleep = λ d s. (none, s);
  classify = classify_response (λ t. none);
}

abbrev executor : ℤ → TeamsRequestExecutor
executor n = record { max_retries = n; base_backoff = pos 0; max_backoff = pos 0 }

abbrev post : Request
post = record { has_body = true; has_get_body = true }

server-Counts : Counts server (λ s. s)
server-Counts = record {
  http_once = λ s. omega arith;
  get_body_none = λ s. omega arith;
  jitter_none = λ d s. omega arith;
  sleep_none = λ d s. omega arith;
}

test_third : do_request server (executor (pos 4)) post 5 0 ≡ (returned (some fine) none, 3)
unfolding do_request classify_response turn as_retryable retry_limit parse_retry_after parse_int
    mul64
test_third = refl

test_no_retries : (do_request server (executor (negsuc 0)) post 5 0).1 ≡ 1
unfolding do_request classify_response turn as_retryable retry_limit
test_no_retries = refl

do_request-ends_example :
    IsAnswer server
      (do_request server (executor (pos 4)) post (suc (retry_limit (executor (pos 4)))) 0).0
    × ((do_request server (executor (pos 4)) post (suc (retry_limit (executor (pos 4)))) 0).1
        ≤ 0 + suc (retry_limit (executor (pos 4))))
do_request-ends_example = do_request-ends server (executor (pos 4)) post (λ s. s) server-Counts 0

test_plain_backoff :
    plain_backoff (pos 500_000_000) (pos 10_000_000_000) 4
    ≡ pos (min (500_000_000 * 2 ^ 3) 10_000_000_000)
test_plain_backoff = plain_backoff_lem 500_000_000 10_000_000_000 3 (omega arith) (omega arith)
