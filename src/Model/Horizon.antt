-- ===== src/Model/Horizon.antt =====
-- Read horizons: `ParseConsumptionHorizonLatestReadTS` of internal/teams/model/consumption_horizon.go
-- and `ConsumptionHorizonNow` of internal/teams/client/receipts.go.
pub mod RoundTrip
mod Examples
use matrix_teams.Prelude.{
  ℕ, ◌≡◌, Bool, true, false, Option, none, some, List, [], ◌∷◌, ◌++◌, ◌==◌, if◌then◌else◌, is_nil,
  ℤ, Text, codes, trim_space,
}
use matrix_teams.Go.Strconv.{parse_int, format_uint}

-- strings.Split(s, sep) for a separator of one rune: the first part, and the others.
unfoldable pub split : ℕ → Text → Text × List Text
split sep [] = ([], [])
split sep (c ∷ s) =
    let (part, parts) = split sep s in if c == sep then ([], part ∷ parts) else (c ∷ part, parts)

read_ts : Text → Option ℤ
read_ts value = if is_nil value then none else parse_int value

second_part : List Text → Option ℤ
second_part [] = none
second_part (part ∷ parts) = read_ts (trim_space part)

-- `none` stands for the result `(0, false)`.
pub parse_latest_read_ts : Text → Option ℤ
parse_latest_read_ts horizon = second_part (split b';' horizon).1

-- Sprintf("%d;%d;0", ms, ms) for a time `ms` milliseconds after 1970.
unfoldable pub consumption_horizon_now : ℕ → Text
consumption_horizon_now ms = format_uint ms ++ (b';' ∷ (format_uint ms ++ codes ";0"))
