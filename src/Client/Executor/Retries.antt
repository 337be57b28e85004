-- ===== src/Client/Executor/Retries.antt =====
-- The loop of Do: how often it sends, and what its answer means.
use matrix_teams.Prelude.{
  ℕ, zero, suc, ◌+◌, ◌≤◌, ◌<◌, ◌≡◌, ◌≢◌, refl, subst, true, not, ◌&&◌, Option, none, some, ltb,
  ◌==◌, ◌⊎◌, inl, inr, arith, Bool-cases, ltb→lt, ℤ, pos, leb_ℤ,
}
use matrix_teams.Client.Errors.{TeamsError, RetryableError, as_retryable}
use matrix_teams.Client.Executor.{
  TeamsRequestExecutor, Request, Outside, Done, returned, out_of_fuel, DoError, classified,
  NetworkError, ContextError, context_error, network, is_retryable_network_error, retry_limit,
  request_for_attempt, compute_backoff, after_sleep, pause, retry_response, on_classified,
  on_answer, on_request, on_context, turn, do_from, do_request,
}

-- A count of requests: sending raises it by one at most, nothing else raises it.
pub record Counts {S R : Type 0} (o : Outside S R) (sent : S → ℕ) : Type 0 where
  pub http_once : (s : S) → sent (o.http s).1 ≤ sent s + 1
  pub get_body_none : (s : S) → sent (o.get_body s).1 ≤ sent s
  pub jitter_none : (d : ℤ) (s : S) → sent (o.jitter d s).1 ≤ sent s
  pub sleep_none : (d : ℤ) (s : S) → sent (o.sleep d s).1 ≤ sent s

-- The error for what the classifier says.
abbrev pub verdict : Option TeamsError → Option DoError
verdict none = none
verdict (some err) = some (classified err)

module _ {S R : Type 0} where
  -- An end of Do: a response with its verdict, or no response and an error.
  abbrev pub IsAnswer : Outside S R → Done R → Type 0
  IsAnswer o (returned (some r) err) = err ≡ verdict (o.classify r)
  IsAnswer o (returned none err) = err ≢ none
  IsAnswer o out_of_fuel = ⊥

no_more : (m n : ℕ) → ltb m n ≡ true → m ≡ n → ⊥
no_more m n h p = let l : m < n = ltb→lt m n h in omega arith

module _ {S R : Type 0} (o : Outside S R) (e : TeamsRequestExecutor) (req : Request) (sent : S → ℕ)
    (counts : Counts o sent) where
  -- A turn ends in an error without a response, in a response with the classifier's verdict, or in
  -- the next turn, if there are retries left; it has sent one request at most.
  module _ (Q : Done R × S → Type 0) (again : S → Done R × S) (retries top : ℕ)
      (stops : (err : DoError) (s : S) → sent s ≤ top → Q (returned none (some err), s))
      (answers : (r : R) (s : S) → sent s ≤ top → Q (returned (some r) (verdict (o.classify r)), s))
      (goes_on : (s : S) → ltb retries (retry_limit e) ≡ true → sent s ≤ top → Q (again s)) where
    after_sleep_lem :
        (a : Option ContextError × S)
        → ltb retries (retry_limit e) ≡ true
        → sent a.1 ≤ top
        → Q (after_sleep o e req again a)
    unfolding after_sleep
    after_sleep_lem (some err, s) more h = stops (context_error err) s h
    after_sleep_lem (none, s) more h = goes_on s more h

    pause_lem : (asked : ℤ) (n : ℕ) (s : S) → sent (pause o e req asked n s).1 ≤ sent s
    unfolding pause compute_backoff
    pause_lem asked n s = elim (Bool-cases (leb_ℤ asked (pos 0))) [
      | inl p ↦ rw p (counts.jitter_none _ s)
      | inr p ↦ rw p (omega arith)
    ]

    answers_with :
        (r : R) (v : Option TeamsError) (s : S)
        → o.classify r ≡ v
        → sent s ≤ top
        → Q (returned (some r) (verdict v), s)
    answers_with r v s c h = subst (λ v'. Q (returned (some r) (verdict v'), s)) c (answers r s h)

    sleep_lem :
        (d : ℤ) (s : S)
        → ltb retries (retry_limit e) ≡ true
        → sent s ≤ top
        → Q (after_sleep o e req again (o.sleep d s))
    sleep_lem d s more h = after_sleep_lem (o.sleep d s) more (omega (arith, counts.sleep_none d s))

    retry_response_lem :
        (r : R) (err : TeamsError) (x : Option RetryableError) (s : S)
        → o.classify r ≡ some err
        → sent s ≤ top
        → Q (retry_response o e req again retries r err x s)
    unfolding retry_response
    retry_response_lem r err none s c h = answers_with r (some err) s c h
    retry_response_lem r err (some x) s c h =
        let paused = pause o e req x.retry_after (retries + 1) s in
        elim (Bool-cases (ltb retries (retry_limit e))) [
          | inl m ↦ rw m (
              sleep_lem paused.0 paused.1 m
                (omega (arith, pause_lem x.retry_after (retries + 1) s)))
          | inr m ↦ rw m (answers_with r (some err) s c h)
        ]

    on_classified_lem :
        (r : R) (v : Option TeamsError) (s : S)
        → o.classify r ≡ v
        → sent s ≤ top
        → Q (on_classified o e req again retries r v s)
    unfolding on_classified
    on_classified_lem r none s c h = answers_with r none s c h
    on_classified_lem r (some err) s c h = retry_response_lem r err (as_retryable err) s c h

    on_answer_lem :
        (a : (NetworkError ⊎ R) × S) → sent a.1 ≤ top → Q (on_answer o e req again retries a)
    unfolding on_answer compute_backoff
    on_answer_lem (inr r, s) h = on_classified_lem r (o.classify r) s refl h
    on_answer_lem (inl err, s) h =
        elim (Bool-cases (is_retryable_network_error (o.ctx_err s) err)) [
          | inr p ↦ rw p (stops (network err) s h)
          | inl p ↦ elim (Bool-cases (ltb retries (retry_limit e))) [
            | inl m ↦ rw (p, m) (sleep_lem _ _ m (omega (arith, counts.jitter_none _ s)))
            | inr m ↦ rw (p, m) (stops (network err) s h)
          ]
        ]

    on_request_lem :
        (a : Option DoError × S) → sent a.1 + 1 ≤ top → Q (on_request o e req again retries a)
    unfolding on_request
    on_request_lem (some err, s) h = stops err s (omega arith)
    on_request_lem (none, s) h = on_answer_lem (o.http s) (omega (arith, counts.http_once s))

    request_for_attempt_lem : (n : ℕ) (s : S) → sent (request_for_attempt o e req n s).1 ≤ sent s
    unfolding request_for_attempt
    request_for_attempt_lem n s = elim (Bool-cases (n == 1 && not req.has_get_body)) [
      | inl p ↦ rw p (omega arith)
      | inr p ↦ elim (Bool-cases (not req.has_get_body && req.has_body)) [
        | inl q ↦ rw (p, q) (omega arith)
        | inr q ↦ elim (Bool-cases req.has_get_body) [
          | inl g ↦ rw (p, q, g) (counts.get_body_none s)
          | inr g ↦ rw (p, q, g) (omega arith)
        ]
      ]
    ]

    on_context_lem :
        (c : Option ContextError) (s : S)
        → sent s + 1 ≤ top
        → Q (on_context o e req again retries c s)
    unfolding on_context
    on_context_lem (some err) s h = stops (context_error err) s (omega arith)
    on_context_lem none s h =
        on_request_lem (request_for_attempt o e req (retries + 1) s)
          (omega (arith, request_for_attempt_lem (retries + 1) s))

    pub turn_lem : (s : S) → sent s + 1 ≤ top → Q (turn o e req again retries s)
    unfolding turn
    turn_lem s h = on_context_lem (o.ctx_err s) s h

  abbrev Ends : ℕ → Done R × S → Type 0
  Ends top d = IsAnswer o d.0 × (sent d.1 ≤ top)

  stops_Ends :
      (top : ℕ) (err : DoError) (s : S) → sent s ≤ top → Ends top (returned none (some err), s)
  stops_Ends top err s h = (cc, h)

  do_from-Ends :
      (left retries : ℕ) (s : S)
      → retries + left ≡ retry_limit e
      → Ends (sent s + suc left) (do_from o e req (suc left) retries s)
  unfolding do_from
  do_from-Ends zero retries s h =
      turn_lem (Ends (sent s + 1)) _ retries (sent s + 1) (stops_Ends (sent s + 1))
        (λ r s' k. (refl, k)) (λ s' m k. elim (no_more retries (retry_limit e) m (omega arith)) [ ])
        s (omega arith)
  do_from-Ends (suc left) retries s h =
      turn_lem (Ends (sent s + suc (suc left))) _ retries (sent s + 1)
        (λ err s' k. stops_Ends (sent s + suc (suc left)) err s' (omega arith))
        (λ r s' k. (refl, omega arith))
        (λ s' m k.
          let (a, b) = do_from-Ends left (retries + 1) s' (omega arith) in (a, omega arith))
        s (omega arith)

  -- Where only sending counts, and by one each time: with fuel for one turn more than the retries
  -- allowed, the loop ends, has sent at most that many requests, and returns an error without a
  -- response, or a response with the error that the classifier gives for it.
  pub do_request-ends :
      (s : S)
      → IsAnswer o (do_request o e req (suc (retry_limit e)) s).0
        × (sent (do_request o e req (suc (retry_limit e)) s).1 ≤ sent s + suc (retry_limit e))
  unfolding do_request
  do_request-ends s = do_from-Ends (retry_limit e) 0 s (omega arith)
