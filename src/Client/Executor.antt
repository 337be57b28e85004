-- ===== src/Client/Executor.antt =====
-- TeamsRequestExecutor of internal/teams/client/executor.go: a request is sent again after errors
-- that may pass, a bounded number of times, with growing pauses.
pub mod Retries
pub mod Pauses
mod Examples
use matrix_teams.Prelude.{
  ℕ, zero, suc, ◌+◌, ◌-◌, ◌≡◌, Bool, ◌⊎◌, inl, inr, true, false, not, ◌&&◌, ◌||◌, Option, none,
  some, ltb, leb, ◌==◌, if◌then◌else◌, ℤ, pos, negsuc, pos_part, neg_part, ltb_ℤ, leb_ℤ, mul64,
  shl64, is_some, Text,
}
use matrix_teams.Client.Errors.{TeamsError, RetryableError, as_retryable}

-- The fields that bound the retries; the durations are in nanoseconds.
pub record TeamsRequestExecutor : Type 0 where
  pub max_retries : ℤ
  pub base_backoff : ℤ
  pub max_backoff : ℤ

-- The three values in force.
pub retry_limit : TeamsRequestExecutor → ℕ
retry_limit e = pos_part e.max_retries

pub base_in_force : TeamsRequestExecutor → ℤ
base_in_force e = if leb_ℤ e.base_backoff (pos 0) then pos 500_000_000 else e.base_backoff

pub max_in_force : TeamsRequestExecutor → ℤ
max_in_force e = if leb_ℤ e.max_backoff (pos 0) then pos 10_000_000_000 else e.max_backoff

-- A request: whether it has a body, and a GetBody.
pub record Request : Type 0 where
  pub has_body : Bool
  pub has_get_body : Bool

-- What errors.Is and errors.As answer on an error of http.Client.Do; `timeout` is that of a
-- net.Error, `none` if there is none in the chain.
pub record NetworkError : Type 0 where
  pub is_canceled : Bool
  pub is_deadline_exceeded : Bool
  pub is_tls : Bool
  pub is_dns : Bool
  pub timeout : Option Bool

pub data ContextError : Type 0 where
  canceled deadline_exceeded : ContextError

-- The errors of Do.
pub data DoError : Type 0 where
  context_error : ContextError → DoError
  body_missing : DoError
  get_body_failed : DoError
  network : NetworkError → DoError
  classified : TeamsError → DoError

times_out : Option Bool → Bool
times_out none = false
times_out (some t) = t

-- isRetryableNetworkError on an error that is not nil
pub is_retryable_network_error : Option ContextError → NetworkError → Bool
unfolding times_out
is_retryable_network_error ctx_err err =
    if err.is_canceled
    then false
    else if err.is_deadline_exceeded
    then not (is_some ctx_err)
    else if err.is_tls || err.is_dns
    then false
    else times_out err.timeout

-- The value that computeBackoff hands to the jitter.
pub plain_backoff : ℤ → ℤ → ℕ → ℤ
plain_backoff base max retry =
    let backoff = if ltb 1 retry then mul64 base (shl64 (pos 1) (retry - 1)) else base in
    if ltb_ℤ max backoff then max else backoff

-- What Do calls, on a state S of the world: the context, GetBody (true if it fails), http.Client.Do,
-- the jitter, the sleep, which may end with the context's error, and the classifier.
pub record Outside (S R : Type 0) : Type 0 where
  pub ctx_err : S → Option ContextError
  pub get_body : S → Bool × S
  pub http : S → (NetworkError ⊎ R) × S
  pub jitter : ℤ → S → ℤ × S
  pub sleep : ℤ → S → Option ContextError × S
  pub classify : R → Option TeamsError

-- What Do returns: a response and an error, either of which may be nil; or the fuel of the model
-- ends.
pub data Done (R : Type 0) : Type 0 where
  returned : Option R → Option DoError → Done R
  out_of_fuel : Done R

module _ {S R : Type 0} (o : Outside S R) (e : TeamsRequestExecutor) (req : Request) where
  -- requestForAttempt, less the copy of the request
  request_for_attempt : ℕ → S → Option DoError × S
  request_for_attempt attempt s =
      let (fails, s') = o.get_body s in
      if attempt == 1 && not req.has_get_body
      then (none, s)
      else if not req.has_get_body && req.has_body
      then (some body_missing, s)
      else if req.has_get_body
      then ((if fails then some get_body_failed else none), s')
      else (none, s)

  compute_backoff : ℕ → S → ℤ × S
  compute_backoff retry s = o.jitter (plain_backoff (base_in_force e) (max_in_force e) retry) s

  after_sleep : (S → Done R × S) → Option ContextError × S → Done R × S
  after_sleep again (some err, s) = (returned none (some (context_error err)), s)
  after_sleep again (none, s) = again s

  pause : ℤ → ℕ → S → ℤ × S
  unfolding compute_backoff
  pause asked retry s = if leb_ℤ asked (pos 0) then compute_backoff retry s else (asked, s)

  -- `again` is the rest of the loop, with one more retry counted.
  retry_response : (S → Done R × S) → ℕ → R → TeamsError → Option RetryableError → S → Done R × S
  unfolding pause after_sleep
  retry_response again retries r err none s = (returned (some r) (some (classified err)), s)
  retry_response again retries r err (some asked) s =
      let (d, s') = pause asked.retry_after (retries + 1) s in
      if ltb retries (retry_limit e)
      then after_sleep again (o.sleep d s')
      else (returned (some r) (some (classified err)), s)

  on_classified : (S → Done R × S) → ℕ → R → Option TeamsError → S → Done R × S
  unfolding retry_response
  on_classified again retries r none s = (returned (some r) none, s)
  on_classified again retries r (some err) s =
      retry_response again retries r err (as_retryable err) s

  on_answer : (S → Done R × S) → ℕ → (NetworkError ⊎ R) × S → Done R × S
  unfolding compute_backoff after_sleep on_classified
  on_answer again retries (inl err, s) =
      let (d, s') = compute_backoff (retries + 1) s in
      if is_retryable_network_error (o.ctx_err s) err && ltb retries (retry_limit e)
      then after_sleep again (o.sleep d s')
      else (returned none (some (network err)), s)
  on_answer again retries (inr r, s) = on_classified again retries r (o.classify r) s

  on_request : (S → Done R × S) → ℕ → Option DoError × S → Done R × S
  unfolding on_answer
  on_request again retries (some err, s) = (returned none (some err), s)
  on_request again retries (none, s) = on_answer again retries (o.http s)

  on_context : (S → Done R × S) → ℕ → Option ContextError → S → Done R × S
  unfolding on_request request_for_attempt
  on_context again retries (some err) s = (returned none (some (context_error err)), s)
  on_context again retries none s = on_request again retries (request_for_attempt (retries + 1) s)

  -- one turn of the loop
  pub turn : (S → Done R × S) → ℕ → S → Done R × S
  unfolding on_context
  turn again retries s = on_context again retries (o.ctx_err s) s

  -- the loop, on fuel
  pub do_from : ℕ → ℕ → S → Done R × S
  do_from zero retries s = (out_of_fuel, s)
  do_from (suc fuel) retries s = turn (do_from fuel (retries + 1)) retries s

  -- Do, on an executor, a request and a classifier that are there.
  pub do_request : ℕ → S → Done R × S
  unfolding do_from
  do_request fuel s = do_from fuel 0 s
