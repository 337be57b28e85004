-- ===== src/Auth/DeviceCode/Approval.antt =====
-- The poll of internal/teams/auth/device_code.go against an endpoint at which the user approves after
-- some answers.
use matrix_teams.Prelude.{
  ℕ, zero, suc, ◌<◌, ◌≡◌, ◌≢◌, ◌⊎◌, refl, Bool, true, false, inl, inr, Option, none, some, List, [],
  ◌∷◌, ◌++◌, append_assoc, arith, is_nil, length, ℤ, pos, leb_ℤ, add64, Text, codes, text_eq,
  trim_space, Bool-cases,
}
use matrix_teams.Auth.State.{AuthState}
use matrix_teams.Auth.DeviceCode.{
  TokenPayload, DeviceCodeClient, DeviceCodeError, missing_device_code, Web, Posted, posted, broken,
  Verdict, ended, waits, flexible_int64, granted, five_seconds, on_refusal, verdict_of, verdict_on,
  on_token_reply, after_wait, poll_turn, poll_from, poll, after_turn,
}

-- What the endpoint answers until the user has approved.
pub data Hint : Type 0 where
  pending slow_down : Hint

-- The answers to come, and the waits so far.
pub record Session : Type 0 where
  pub hints : List Hint
  pub waited : List ℤ

abbrev hint_text : Hint → Text
hint_text pending = codes "authorization_pending"
hint_text slow_down = codes "slow_down"

abbrev hint_payload : Hint → TokenPayload
hint_payload h = record {
  access_token = [];
  refresh_token = [];
  id_token = [];
  expires_in = none;
  error = hint_text h;
}

abbrev reply : TokenPayload → List Hint → List ℤ → Posted TokenPayload × Session
reply token [] waited = (posted 200 token, record { hints = []; waited = waited })
reply token (h ∷ hints) waited =
    (posted 400 (hint_payload h), record { hints = hints; waited = waited })

-- The endpoint that gives the hints and then the token, before a clock that stands still.
abbrev pub approving : TokenPayload → ℤ → Web Session TokenPayload
approving token now = record {
  post_form = λ url form s. reply token s.hints s.waited;
  code_payload = λ b. none;
  token_payload = λ b. some b;
  wait = λ interval s. (true, record s { waited = s.waited ++ (interval ∷ []) });
  now = λ s. now;
}

-- The waits that the hints ask for: each `slow_down` makes the next ones five seconds longer.
abbrev pub schedule : ℤ → List Hint → List ℤ
schedule interval [] = interval ∷ []
schedule interval (pending ∷ hints) = interval ∷ schedule interval hints
schedule interval (slow_down ∷ hints) = interval ∷ schedule (add64 interval five_seconds) hints

module _ (token : TokenPayload) (now : ℤ) (c : DeviceCodeClient) (code : Text) {expires_in : ℤ}
    (given : is_nil token.access_token ≡ false)
    (read : flexible_int64 token.expires_in ≡ some expires_in) where
  abbrev web : Web Session TokenPayload
  web = approving token now

  turn_pending :
      (interval : ℤ) (hints : List Hint) (w : List ℤ)
      → poll_turn web c code interval (record { hints = pending ∷ hints; waited = w })
        ≡ (waits interval, record { hints = hints; waited = w ++ (interval ∷ []) })
  unfolding poll_turn after_wait on_token_reply verdict_on verdict_of on_refusal flexible_int64
      text_eq
  turn_pending interval hints w = refl

  turn_slow_down :
      (interval : ℤ) (hints : List Hint) (w : List ℤ)
      → poll_turn web c code interval (record { hints = slow_down ∷ hints; waited = w }) ≡ (
        waits (add64 interval five_seconds),
        record { hints = hints; waited = w ++ (interval ∷ []) },
      )
  unfolding poll_turn after_wait on_token_reply verdict_on verdict_of on_refusal flexible_int64
      text_eq
  turn_slow_down interval hints w = refl

  turn_granted :
      (interval : ℤ) (w : List ℤ)
      → poll_turn web c code interval (record { hints = []; waited = w }) ≡ (
        ended (inr (granted now token expires_in)),
        record { hints = []; waited = w ++ (interval ∷ []) },
      )
  unfolding poll_turn after_wait on_token_reply verdict_on verdict_of
  turn_granted interval w = rw (read, verdict_of) (rw given refl)

  poll_from-granted :
      (fuel : ℕ) (interval : ℤ) (hints : List Hint) (w : List ℤ)
      → length hints < fuel
      → poll_from web c fuel code interval (record { hints = hints; waited = w }) ≡ (
        some (inr (granted now token expires_in)),
        record { hints = []; waited = w ++ schedule interval hints },
      )
  unfolding poll_from
  poll_from-granted zero interval hints w h = elim h [ ]
  poll_from-granted (suc fuel) interval [] w h = rw (turn_granted interval w) refl
  poll_from-granted (suc fuel) interval (pending ∷ hints) w h = rw (turn_pending interval hints w) (
      rw (poll_from-granted fuel interval hints (w ++ (interval ∷ [])) (omega arith))
        (rw (append_assoc w) refl))
  poll_from-granted (suc fuel) interval (slow_down ∷ hints) w h =
      rw (turn_slow_down interval hints w) (
        rw
          (poll_from-granted fuel (add64 interval five_seconds) hints (w ++ (interval ∷ []))
            (omega arith))
          (rw (append_assoc w) refl))

-- Where the user approves, the poll ends: after any row of answers that ask to go on, it returns the
-- tokens of the answer that has them, with their expiry counted from the clock. The waits that it
-- made, one before each request, are the given interval at first, and five seconds longer after each
-- `slow_down`. This is for a code that is not blank, an interval above zero, an access token that is
-- not empty, an expiry that can be read, and fuel for one request more than the answers that ask to
-- go on.
pub poll-granted :
    (token : TokenPayload) (now : ℤ) (c : DeviceCodeClient) (code : Text) {expires_in : ℤ}
    (fuel : ℕ) (interval : ℤ) (hints : List Hint)
    → is_nil token.access_token ≡ false
    → flexible_int64 token.expires_in ≡ some expires_in
    → is_nil (trim_space code) ≡ false
    → leb_ℤ interval (pos 0) ≡ false
    → length hints < fuel
    → poll (approving token now) c fuel code interval (record { hints = hints; waited = [] }) ≡ (
      some (inr (granted now token expires_in)),
      record { hints = []; waited = schedule interval hints },
    )
unfolding poll
poll-granted token now c code fuel interval hints given read named positive enough =
    rw (named, positive)
      (poll_from-granted token now c code given read fuel interval hints [] enough)

on_refusal-ne :
    (interval : ℤ) (error : Text) (st : AuthState) → on_refusal interval error ≢ ended (inr st)
unfolding on_refusal
on_refusal-ne interval error st h = ground arith

verdict_of-HasToken :
    (now interval : ℤ) (p : TokenPayload) (o : Option ℤ) (st : AuthState)
    → verdict_of now interval p o ≡ ended (inr st)
    → is_nil st.access_token ≡ false
unfolding verdict_of granted
verdict_of-HasToken now interval p none st h = cc
verdict_of-HasToken now interval p (some e) st h = elim (Bool-cases (is_nil p.access_token)) [
  | inl empty ↦ absurd (on_refusal-ne interval p.error st (rw empty at h))
  | inr filled ↦ ground arith
]

verdict_on-HasToken :
    (now interval : ℤ) (p : Option TokenPayload) (st : AuthState)
    → verdict_on now interval p ≡ ended (inr st)
    → is_nil st.access_token ≡ false
unfolding verdict_on
verdict_on-HasToken now interval none st h = cc
verdict_on-HasToken now interval (some p) st h = verdict_of-HasToken now interval p _ st h

module _ {S B : Type 0} (web : Web S B) (c : DeviceCodeClient) (code : Text) (st : AuthState) where
  on_token_reply-HasToken :
      (interval : ℤ) (r : Posted B × S)
      → (on_token_reply web c interval r).0 ≡ ended (inr st)
      → is_nil st.access_token ≡ false
  unfolding on_token_reply
  on_token_reply-HasToken interval (broken, s) h = cc
  on_token_reply-HasToken interval (posted status body, s) h = verdict_on-HasToken _ _ _ st h

  after_wait-HasToken :
      (interval : ℤ) (r : Bool × S)
      → (after_wait web c code interval r).0 ≡ ended (inr st)
      → is_nil st.access_token ≡ false
  unfolding after_wait
  after_wait-HasToken interval (false, s) h = cc
  after_wait-HasToken interval (true, s) h = on_token_reply-HasToken interval _ h

  after_turn-HasToken :
      (again : ℤ → S → Option (DeviceCodeError ⊎ AuthState) × S)
      → ((interval : ℤ) (s : S)
          → (again interval s).0 ≡ some (inr st)
          → is_nil st.access_token ≡ false)
      → (v : Verdict × S) → (v.0 ≡ ended (inr st) → is_nil st.access_token ≡ false)
      → (after_turn web c again v).0 ≡ some (inr st)
      → is_nil st.access_token ≡ false
  after_turn-HasToken again ih (ended r, s) last h = last (cc)
  after_turn-HasToken again ih (waits interval, s) last h = ih interval s h

  poll_from-HasToken :
      (fuel : ℕ) (interval : ℤ) (s : S)
      → (poll_from web c fuel code interval s).0 ≡ some (inr st)
      → is_nil st.access_token ≡ false
  unfolding poll_from
  poll_from-HasToken zero interval s h = cc
  poll_from-HasToken (suc fuel) interval s h =
      after_turn-HasToken (poll_from web c fuel code) (poll_from-HasToken fuel)
        (poll_turn web c code interval s)
        (unfold poll_turn in after_wait-HasToken interval (web.wait interval s)) h

-- Whatever the endpoint answers and whenever the wait is cancelled, a login that the poll returns has
-- an access token.
pub poll-HasToken :
    {S B : Type 0} (web : Web S B) (c : DeviceCodeClient) (code : Text) (st : AuthState) (fuel : ℕ)
    (interval : ℤ) (s : S)
    → (poll web c fuel code interval s).0 ≡ some (inr st)
    → is_nil st.access_token ≡ false
unfolding poll
poll-HasToken web c code st fuel interval s h = elim (Bool-cases (is_nil (trim_space code))) [
  | inl blank ↦
      let k : some (inl missing_device_code) ≡ some (inr st) = rw blank at h in absurd (cc)
  | inr named ↦ poll_from-HasToken web c code st fuel _ s (rw named at h)
]
