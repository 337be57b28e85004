-- ===== src/Connector/SyncLoop/Examples.antt =====
-- Runs of startSyncLoop and stopSyncLoop (pkg/connector/handleteams.go).
use matrix_teams.Prelude.{ℕ, ◌≡◌, refl, true, false, Option, none, some, arith}
use matrix_teams.Connector.SyncLoop.{
  created, running, SyncState, idle, start_sync_loop, stop_sync_loop, begin_loop, end_loop, Reaches,
  release_loop, start, release, cancel, begin, here, after,
}
use matrix_teams.Connector.SyncLoop.Safety.{
  IsLive, IsQuiet, one_live_loop, orderly_stop, hasty_stop,
}

abbrev Anytime : SyncState → Type 0
Anytime s = Unit {0}

-- A start, a stop and a second start.
abbrev restarted : SyncState
unfolding start_sync_loop stop_sync_loop
restarted = start_sync_loop (stop_sync_loop (start_sync_loop idle)).1

restarting : Reaches Anytime idle restarted
unfolding restarted start_sync_loop stop_sync_loop
restarting = after start (after (release tt) (after (cancel 0 refl) (after start here)))

second-IsLive : IsLive restarted 1
unfolding restarted start_sync_loop stop_sync_loop
second-IsLive = (λ h. cc, refl)

restarted-IsSettled : (k : ℕ) → restarted.is_taken k ≡ true → restarted.is_canceled k ≡ true
unfolding restarted start_sync_loop stop_sync_loop
restarted-IsSettled k h = h

-- Without that condition: a start between the halves of a stop, and two loops that run.
abbrev overlapping : SyncState
unfolding start_sync_loop release_loop
overlapping = start_sync_loop (release_loop (start_sync_loop idle)).1

test_overlapping : IsLive overlapping 0 × IsLive overlapping 1
unfolding overlapping start_sync_loop release_loop
test_overlapping = ((λ h. cc, refl), (λ h. cc, refl))

one_live_loop_example : ◌≡◌ {A = ℕ} 1 1 × (restarted.sync_cancel ≡ some 1)
one_live_loop_example =
    one_live_loop Anytime restarting restarted-IsSettled 1 1 second-IsLive second-IsLive

-- A loop that has begun and was then told to stop.
abbrev stopping : SyncState
unfolding start_sync_loop stop_sync_loop begin_loop
stopping = (stop_sync_loop (begin_loop 0 (start_sync_loop idle))).1

begun-IsQuiet : IsQuiet (begin_loop 0 (start_sync_loop idle))
unfolding start_sync_loop begin_loop
begun-IsQuiet i h = ground arith

stopping_reached : Reaches IsQuiet idle stopping
unfolding stopping start_sync_loop stop_sync_loop begin_loop
stopping_reached =
    after start (after (begin 0 refl) (after (release begun-IsQuiet) (after (cancel 0 refl) here)))

orderly_stop_example :
    (stopping.crashed ≡ false)
    × ((i : ℕ) (c : Option ℕ)
        → stopping.phase i ≡ running c
        → (c ≡ some i) × (stopping.is_closed i ≡ false))
orderly_stop_example = orderly_stop stopping_reached

started_created : (start_sync_loop idle).phase 0 ≡ created
unfolding start_sync_loop
started_created = refl

hasty_stop_example :
    ((begin_loop 0 (stop_sync_loop (start_sync_loop idle)).1).phase 0 ≡ running none)
    × ((end_loop 0 none (begin_loop 0 (stop_sync_loop (start_sync_loop idle)).1)).crashed ≡ true)
hasty_stop_example = hasty_stop (start_sync_loop idle) 0 started_created
