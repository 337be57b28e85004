-- ===== src/Connector/Schedule/Examples.antt =====
-- A pass over a thread that is due and one that is not; the world is the list of polled threads.
use matrix_teams.Prelude.{
  ◌+◌, ◌≤◌, ◌≡◌, refl, ◌⊎◌, true, Option, none, List, [], ◌∷◌, is_nil, ℤ, pos, Text, codes, All,
  text_eq, lookup, insert,
}
use matrix_teams.Client.Errors.{TeamsError}
use matrix_teams.Connector.Tracker.{Time}
use matrix_teams.Connector.Backoff.{initial, apply_poll_backoff}
use matrix_teams.Connector.Schedule.{PollState, poll_due_threads, sleep_time}
use matrix_teams.Connector.Schedule.Wake.{IsWokenFor, poll_due_threads-IsCovered}

abbrev poll : Text → List Text → (ℤ × Option TeamsError) × List Text
poll id polled = ((pos 1, none), id ∷ polled)

abbrev known : List (Text × PollState)
known = (codes "b", record { backoff = initial; next_poll = 9_000_000_000 }) ∷ []

abbrev threads : List Text
threads = codes "a" ∷ codes "b" ∷ []

-- Each poll takes a second.
abbrev clock : List Text → Time
clock [] = 8_000_000_000
clock (id ∷ ids) = clock ids + 1_000_000_000

test_polled : (poll_due_threads poll clock 8_000_000_000 threads known []).0.world ≡ codes "a" ∷ []
unfolding poll_due_threads lookup insert text_eq
test_polled = refl

-- The other thread is due when the poll of the first one ends.
test_wake : (poll_due_threads poll clock 8_000_000_000 threads known []).1 ≡ 9_100_000_000
unfolding poll_due_threads lookup insert text_eq apply_poll_backoff
test_wake = refl

test_sleep : sleep_time 8_000_000_000 8_000_000_001 ≡ 100_000_000
unfolding sleep_time
test_sleep = refl

poll_due_threads-IsCovered_example :
    let turn = poll_due_threads poll clock 8_000_000_000 threads known [] in
    let ended = clock turn.0.world in
    All (λ id. (is_nil id ≡ true) ⊎ IsWokenFor ended turn id) threads
    × ((turn.1 ≤ 8_000_000_000 + 5_000_000_000) ⊎ (turn.1 ≤ ended + 100_000_000))
poll_due_threads-IsCovered_example =
    poll_due_threads-IsCovered poll 8_000_000_000 clock threads known []
