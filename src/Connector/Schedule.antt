-- ===== src/Connector/Schedule.antt =====
-- The loop of `pollDueThreads` in pkg/connector/handleteams.go: which threads a pass polls, when each
-- is polled next, and when the timer behind the pass wakes the loop.
pub mod Wake
mod Examples
use matrix_teams.Prelude.{
  ℕ, ◌+◌, ◌-◌, ◌≡◌, min, Bool, true, false, Option, none, some, List, [], ◌∷◌, ltb, if◌then◌else◌,
  is_nil, ℤ, pos, negsuc, pos_part, neg_part, Text, lookup, insert,
}
use matrix_teams.Client.Errors.{TeamsError}
use matrix_teams.Connector.Tracker.{Time}
use matrix_teams.Connector.Backoff.{PollBackoff, initial, apply_poll_backoff}

pub record PollState : Type 0 where
  pub backoff : PollBackoff
  pub next_poll : Time

-- now.Add(delay), for a time that is farther from the zero time than the delay.
abbrev pub time_add : Time → ℤ → Time
time_add now delay = now + pos_part delay - neg_part delay

-- The earlier of two times: `if a.Before(b) { b = a }`.
abbrev pub earlier : Time → Time → Time
earlier a b = if ltb a b then a else b

-- The variables of a pass, and the state W of the world that a poll changes.
pub record Pass (W : Type 0) : Type 0 where
  pub states : List (Text × PollState)
  pub next_wake : Time
  pub world : W

-- The state of a thread; a thread that is new gets one that is due.
pub state_of : Time → List (Text × PollState) → Text → PollState
state_of now states id = elim (lookup states id) [
  | none ↦ record { backoff = initial; next_poll = now }
  | some ps ↦ ps
]

-- `poll` is pollThread at the time of the pass: the count of messages and the error.
module _ {W : Type 0} (poll : Text → W → (ℤ × Option TeamsError) × W) (now : Time) where
  -- ApplyPollBackoff on the state of a thread that was polled
  polled : PollState → ℤ × Option TeamsError → PollState
  polled ps (ingested, err) =
      let backoff = (apply_poll_backoff ps.backoff ingested err).0 in
      record { backoff = backoff; next_poll = time_add now backoff.delay }

  pub visit : Text → Pass W → Pass W
  unfolding state_of polled
  visit id p =
      let ps = state_of now p.states id in
      let (outcome, world') = poll id p.world in
      let ps' = polled ps outcome in
      if is_nil id
      then p
      else if ltb now ps.next_poll
      then record {
        states = insert p.states id ps;
        next_wake = earlier ps.next_poll p.next_wake;
        world = p.world;
      }
      else record {
        states = insert p.states id ps';
        next_wake = earlier ps'.next_poll p.next_wake;
        world = world';
      }

  pub pass_from : List Text → Pass W → Pass W
  unfolding visit
  pass_from [] p = p
  pass_from (id ∷ ids) p = pass_from ids (visit id p)

  -- the threads of the table in turn, from the states of the last turn
  pub pass_due : List Text → List (Text × PollState) → W → Pass W
  unfolding pass_from
  pass_due ids states world =
      pass_from ids (record { states = states; next_wake = now + 5_000_000_000; world = world })

-- The pause behind a pass: time.Until(nextWake), and at least 100 ms.
pub sleep_time : Time → Time → ℕ
sleep_time now next_wake =
    if ltb (next_wake - now) 100_000_000 then 100_000_000 else next_wake - now

-- One turn of the loop: a pass that starts at `now`, and when the timer behind it fires. `clock` is
-- what time.Until reads after the polls, which take their time.
pub poll_due_threads :
    {W : Type 0}
    → (Text → W → (ℤ × Option TeamsError) × W)
    → (W → Time)
    → Time
    → List Text
    → List (Text × PollState)
    → W
    → Pass W × Time
unfolding sleep_time pass_due
poll_due_threads poll clock now ids states world =
    let p = pass_due poll now ids states world in
    (p, clock p.world + sleep_time (clock p.world) p.next_wake)
