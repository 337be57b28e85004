-- ===== src/Model/Sequence/Examples.antt =====
-- Runs of `CompareSequenceID` (internal/teams/model/message.go).
use matrix_teams.Prelude.{compare, Ordering, ◌≡◌, refl, codes, arith}
use matrix_teams.Go.Strconv.{format_uint}
use matrix_teams.Model.Sequence.{compare_sequence_id}
use matrix_teams.Model.Sequence.Order.{compare_sequence_id-flip, compare_printed, flip}

test_numeric : compare_sequence_id (codes "9") (codes "10") ≡ Ordering.lt
unfolding compare_sequence_id
test_numeric = refl

-- One identifier that is no number makes a cycle: 10 < 1a < 9 < 10.
test_cycle :
    (compare_sequence_id (codes "10") (codes "1a") ≡ Ordering.lt)
    × (compare_sequence_id (codes "1a") (codes "9") ≡ Ordering.lt)
    × (compare_sequence_id (codes "9") (codes "10") ≡ Ordering.lt)
unfolding compare_sequence_id
test_cycle = (refl, refl, refl)

test_flip :
    compare_sequence_id (codes "9") (codes "x") ≡ flip (compare_sequence_id (codes "x") (codes "9"))
test_flip = compare_sequence_id-flip (codes "x") (codes "9")

test_compare_printed : compare_sequence_id (format_uint 9) (format_uint 10) ≡ compare 9 10
test_compare_printed = compare_printed 9 10 (omega arith) (omega arith)
