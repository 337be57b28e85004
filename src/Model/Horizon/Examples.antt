-- ===== src/Model/Horizon/Examples.antt =====
-- Runs of internal/teams/model/consumption_horizon.go.
use matrix_teams.Prelude.{◌≡◌, refl, none, some, pos, negsuc, codes, trim_space, arith}
use matrix_teams.Go.Strconv.{parse_int}
use matrix_teams.Model.Horizon.{
  parse_latest_read_ts, second_part, read_ts, split, consumption_horizon_now,
}
use matrix_teams.Model.Horizon.RoundTrip.{parse-consumption_horizon_now}

test_parse : parse_latest_read_ts (codes "1;  -2 ;3") ≡ some (negsuc 1)
unfolding parse_latest_read_ts second_part read_ts split parse_int trim_space
test_parse = refl

test_one_part : parse_latest_read_ts (codes "17") ≡ none
unfolding parse_latest_read_ts second_part read_ts split parse_int trim_space
test_one_part = refl

parse-consumption_horizon_now_example :
    parse_latest_read_ts (consumption_horizon_now 1700000000000) ≡ some (pos 1700000000000)
parse-consumption_horizon_now_example = parse-consumption_horizon_now 1700000000000 (omega arith)
