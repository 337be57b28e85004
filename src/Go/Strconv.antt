-- ===== src/Go/Strconv.antt =====
-- Package strconv in base 10 and 64 bits: ParseUint, ParseInt and FormatUint. An error is `none`.
pub mod Digits
pub mod RoundTrip
use matrix_teams.Prelude.{
  ℕ, zero, suc, ◌+◌, ◌-◌, ◌*◌, ◌/◌, ◌%◌, ◌^◌, ◌≤◌, ◌<◌, ◌≡◌, Bool, true, false, ◌&&◌, ◌||◌, Option,
  none, some, [], ◌∷◌, arith, ltb, leb, ◌==◌, if◌then◌else◌, ℤ, pos, negsuc, Text,
}

pub is_digit : ℕ → Bool
is_digit c = leb b'0' c && leb c b'9'

abbrev pub IsDigit : ℕ → Type 0
IsDigit c = (b'0' ≤ c) × (c ≤ b'9')

-- The digits behind a number that is read so far.
digits_from : Text → ℕ → Option ℕ
unfolding is_digit
digits_from [] n = some n
digits_from (c ∷ s) n =
    let rest = digits_from s (n * 10 + (c - b'0')) in if is_digit c then rest else none

-- One or more digits and nothing else, read without a bound.
pub digits_value : Text → Option ℕ
unfolding digits_from
digits_value [] = none
digits_value (c ∷ s) = digits_from (c ∷ s) 0

below : ℕ → Option ℕ → Option ℕ
below bound none = none
below bound (some n) = if ltb n bound then some n else none

-- strconv.ParseUint(s, 10, 64)
unfoldable pub parse_uint : Text → Option ℕ
unfolding below digits_value
parse_uint s = below (2 ^ 64) (digits_value s)

signed : Bool → Option ℕ → Option ℤ
signed negative none = none
signed false (some n) = if ltb n (2 ^ 63) then some (pos n) else none
signed true (some zero) = some (pos 0)
signed true (some (suc n)) = if ltb n (2 ^ 63) then some (negsuc n) else none

-- strconv.ParseInt(s, 10, 64)
unfoldable pub parse_int : Text → Option ℤ
unfolding signed digits_value
parse_int [] = none
parse_int (c ∷ s) =
    if c == b'-'
    then signed true (digits_value s)
    else if c == b'+'
    then signed false (digits_value s)
    else signed false (digits_value (c ∷ s))

-- The digits of n in front of `out`; the fuel n suffices, since a tenth of n is less than n.
emit : ℕ → ℕ → Text → Text
emit zero n out = out
emit (suc fuel) n out =
    let rest = emit fuel (n / 10) ((b'0' + n % 10) ∷ out) in if n == 0 then out else rest

-- strconv.FormatUint(n, 10)
unfoldable pub format_uint : ℕ → Text
unfolding emit
format_uint n = if n == 0 then b'0' ∷ [] else emit n n []
