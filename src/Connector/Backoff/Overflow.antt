-- ===== src/Connector/Backoff/Overflow.antt =====
-- What the shift in `OnFailure` (pkg/connector/poll_backoff.go) does past the range of int64.
use matrix_teams.Prelude.{
  ℕ, ◌+◌, ◌-◌, ◌*◌, ◌%◌, ◌^◌, ◌≤◌, ◌<◌, ◌≡◌, refl, ap, ◌∙◌, arith, ℤ, pos, negsuc, two_pow_mono,
  two_pow_split, add64, sub64, mul64, shl64, ◌<ℤ◌,
}
use native.Mathlib.Nat.{mul-mod_right}
use native.Mathlib.Decide.{dec_lt, ℕ_discrete}
use matrix_teams.Connector.Backoff.{poll_base_delay, on_failure, failure_delay, cap_failure}

-- A shift by 64 or more leaves no bit.
shl64_out : (n : ℕ) → 64 ≤ n → shl64 (pos 1) n ≡ pos 0
unfolding shl64
shl64_out n h =
    let e : 2 ^ n % 2 ^ 64 ≡ 0 =
      ap (λ (m : ℕ). m % 2 ^ 64) (two_pow_split 64 n h) ∙ mul-mod_right (2 ^ 64) (2 ^ (n - 64)) in
    ground arith

shl64_in : (n : ℕ) → n < 63 → shl64 (pos 1) n ≡ pos (2 ^ n)
unfolding shl64
shl64_in n h = ground (arith, two_pow_mono n 62 (omega arith))

shl64_sign : shl64 (pos 1) 63 ≡ negsuc (2 ^ 63 - 1)
unfolding shl64
shl64_sign = refl

-- The factor of two seconds holds ten more powers of two.
product_out : (n : ℕ) → 54 ≤ n → mul64 poll_base_delay (shl64 (pos 1) n) ≡ pos 0
unfolding mul64
product_out n h = elim (dec_lt n 63) [
  | yes small ↦
      let e : 2 ^ n ≡ 2 ^ 54 * 2 ^ (n - 54) = two_pow_split 54 n h in
      rw (shl64_in n small) (ground (arith, e))
  | no large ↦ elim (ℕ_discrete n 63) [
    | yes sign ↦ rw (sign, shl64_sign) refl
    | no out ↦ rw (shl64_out n (omega arith)) refl
  ]
]

-- From a count of at least 54 failures, as long as the count itself stays in range, a failure sets
-- the delay to zero: the shifted product leaves no bit of its 64, and the cap does not raise it.
pub failure_delay_vanishes :
    (n : ℕ) (d : ℤ)
    → 54 ≤ n
    → n + 1 < 2 ^ 63
    → (on_failure (record { failures = pos n; delay = d })).delay ≡ pos 0
unfolding on_failure failure_delay cap_failure add64 sub64
failure_delay_vanishes n d h k = ground (arith, product_out n h)

-- The 34th failure in a row sets a delay that is negative.
pub failure_delay_negative :
    (d : ℤ) → (on_failure (record { failures = pos 33; delay = d })).delay <ℤ pos 0
unfolding on_failure
failure_delay_negative d = omega arith
