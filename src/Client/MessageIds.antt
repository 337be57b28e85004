-- ===== src/Client/MessageIds.antt =====
-- `GenerateClientMessageID` of internal/teams/client/messages.go: callers on several goroutines share
-- one counter, which they read and then replace with a compare-and-swap.
pub mod Growing
mod Examples
use matrix_teams.Prelude.{
  ℕ, ◌+◌, ◌%◌, ◌^◌, ◌≡◌, leb, ltb, ◌==◌, if◌then◌else◌, Bool, List, [], ◌∷◌, ◌++◌, Text,
}
use matrix_teams.Go.Strconv.{format_uint}

-- A call in progress: its `now`, before the load; or with the loaded `prev` too.
pub data Caller : Type 0 where
  loading : ℕ → Caller
  swapping : ℕ → ℕ → Caller
  returned : ℕ → Caller

-- atomic.LoadUint64 and the test behind it, at uint64.
pub next_after : ℕ → ℕ → ℕ
next_after now prev = if leb now prev then (prev + 1) % 2 ^ 64 else now

-- One atomic step of a caller on the counter: the call's next stage, and the counter.
pub step : ℕ → Caller → Caller × ℕ
unfolding next_after
step counter (loading now) = (swapping (next_after now counter) counter, counter)
step counter (swapping now prev) =
    if counter == prev then (returned now, now) else (loading now, counter)
step counter (returned now) = (returned now, counter)

-- What the step hands out, if its compare-and-swap succeeds.
pub won : ℕ → Caller → List ℕ
won counter (loading now) = []
won counter (swapping now prev) = if counter == prev then now ∷ [] else []
won counter (returned now) = []

-- The counter, the call that each goroutine is in, and the numbers handed out, the latest first.
pub record Shared : Type 0 where
  pub counter : ℕ
  pub callers : ℕ → Caller
  pub issued : List ℕ

-- A goroutine enters the function at a time, or takes a step.
pub data Event : Type 0 where
  call : ℕ → ℕ → Event
  act : ℕ → Event

abbrev pub put : ℕ → Caller → (ℕ → Caller) → ℕ → Caller
put i c callers j = if j == i then c else callers j

pub apply : Event → Shared → Shared
unfolding step won
apply (call i now) w = record w { callers = put i (loading now) w.callers }
apply (act i) w =
    let (c, counter') = step w.counter (w.callers i) in
    record {
      counter = counter';
      callers = put i c w.callers;
      issued = won w.counter (w.callers i) ++ w.issued;
    }

pub run : List Event → Shared → Shared
run [] w = w
run (e ∷ es) w = run es (apply e w)

-- What a call gives back.
pub client_message_id : ℕ → Text
client_message_id now = format_uint now
