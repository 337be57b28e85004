-- ===== src/Go/Strconv/RoundTrip.antt =====
-- What FormatUint of package strconv prints, ParseUint and ParseInt read.
use matrix_teams.Prelude.{ℕ, ◌^◌, ◌<◌, ◌≡◌, some, [], ◌∷◌, arith, pos, Text, All, lt→ltb}
use matrix_teams.Go.Strconv.{IsDigit, digits_value, parse_uint, parse_int, format_uint}
use matrix_teams.Go.Strconv.Digits.{digits_value-format_uint, format_uint-All}

pub parse_uint-format_uint : (n : ℕ) → n < 2 ^ 64 → parse_uint (format_uint n) ≡ some n
unfolding parse_uint
parse_uint-format_uint n h = rw (digits_value-format_uint n) (rw (lt→ltb n (2 ^ 64) h))

-- A text of digits has no sign.
parse_int_unsigned :
    (s : Text) (n : ℕ)
    → All IsDigit s
    → digits_value s ≡ some n
    → n < 2 ^ 63
    → parse_int s ≡ some (pos n)
unfolding parse_int digits_value
parse_int_unsigned [] n d e h = cc
parse_int_unsigned (c ∷ s) n (d, ds) e h = ground arith

pub parse_int-format_uint : (n : ℕ) → n < 2 ^ 63 → parse_int (format_uint n) ≡ some (pos n)
parse_int-format_uint n h =
    parse_int_unsigned (format_uint n) n (format_uint-All n) (digits_value-format_uint n) h
