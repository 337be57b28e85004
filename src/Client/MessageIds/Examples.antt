-- ===== src/Client/MessageIds/Examples.antt =====
-- Two goroutines at the same nanosecond: the second one's compare-and-swap fails and is tried again.
use matrix_teams.Prelude.{◌+◌, ◌≡◌, refl, arith, List, [], ◌∷◌}
use matrix_teams.Client.MessageIds.{Event, call, act, apply, run, next_after}
use matrix_teams.Client.MessageIds.Growing.{run-IsDescending, IsDescending, fresh}

abbrev race : List Event
race = call 0 100 ∷ call 1 100 ∷ act 0 ∷ act 1 ∷ act 0 ∷ act 1 ∷ act 1 ∷ act 1 ∷ []

test_race : (run race (fresh 7)).issued ≡ 101 ∷ 100 ∷ []
unfolding run apply next_after
test_race = refl

run-IsDescending_example :
    IsDescending ((run race (fresh 7)).counter + 1) (run race (fresh 7)).issued
run-IsDescending_example =
    run-IsDescending race 7 (omega arith) (omega arith)
      (omega arith, (omega arith, (tt, (tt, (tt, (tt, (tt, (tt, tt))))))))
