-- ===== src/Model/Horizon/RoundTrip.antt =====
-- A horizon that the bridge sends is read back as its time (internal/teams/model/consumption_horizon.go).
use matrix_teams.Prelude.{
  ℕ, ◌^◌, ◌<◌, ◌≡◌, refl, ◌∙◌, some, List, [], ◌∷◌, ◌++◌, pos, Text, trim_space-solid, All, arith,
  ◌≢◌,
}
use matrix_teams.Go.Strconv.{IsDigit, parse_int, format_uint}
use matrix_teams.Go.Strconv.Digits.{digits_solid, format_uint-All, format_uint-ne-nil}
use matrix_teams.Go.Strconv.RoundTrip.{parse_int-format_uint}
use matrix_teams.Model.Horizon.{
  split, read_ts, second_part, parse_latest_read_ts, consumption_horizon_now,
}

-- Digits hold no separator.
split-digits :
    (s rest : Text)
    → All IsDigit s
    → split b';' (s ++ (b';' ∷ rest)) ≡ (s, (split b';' rest).0 ∷ (split b';' rest).1)
unfolding split
split-digits [] rest h = refl
split-digits (c ∷ s) rest (d, ds) = ground (arith, split-digits s rest ds)

read_ts-digits : (s : Text) → s ≢ [] → read_ts s ≡ parse_int s
unfolding read_ts
read_ts-digits [] h = absurd (h refl)
read_ts-digits (c ∷ s) h = refl

horizon_part :
    (s : Text) (parts : List Text) → All IsDigit s → s ≢ [] → second_part (s ∷ parts) ≡ parse_int s
unfolding second_part
horizon_part s parts d h = rw (trim_space-solid s (digits_solid s d)) (read_ts-digits s h)

-- The horizon for a time in the range of int64 is read as that time.
pub parse-consumption_horizon_now :
    (ms : ℕ) → ms < 2 ^ 63 → parse_latest_read_ts (consumption_horizon_now ms) ≡ some (pos ms)
unfolding parse_latest_read_ts consumption_horizon_now
parse-consumption_horizon_now ms h =
    let digits = format_uint-All ms in
    rw (split-digits (format_uint ms) _ digits, split-digits (format_uint ms) (b'0' ∷ []) digits)
      (horizon_part (format_uint ms) _ digits (format_uint-ne-nil ms) ∙ parse_int-format_uint ms h)
