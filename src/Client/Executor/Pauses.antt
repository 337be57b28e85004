-- ===== src/Client/Executor/Pauses.antt =====
-- The pauses between the executor's requests.
use matrix_teams.Prelude.{
  ℕ, zero, suc, ◌-◌, ◌*◌, ◌^◌, ◌≤◌, ◌<◌, ◌≡◌, min, arith, pos, true, ltb, ltb_ℤ, mul64_pos, shl64,
  if◌then◌else◌,
}
use matrix_teams.Client.Executor.{plain_backoff}

shl64_small : (n : ℕ) → 2 ^ n < 2 ^ 63 → shl64 (pos 1) n ≡ pos (2 ^ n)
unfolding shl64
shl64_small n h = ground arith

power-le-multiple : (base p : ℕ) → 0 < base → p ≤ base * p
power-le-multiple zero p h = elim h [ ]
power-le-multiple (suc b) p h = omega arith

cap : (a max : ℕ) → (if ltb_ℤ (pos max) (pos a) then pos max else pos a) ≡ pos (min a max)
cap a max = ground arith

-- Before the n + 1st retry the executor pauses for the base doubled n times, or for the longest
-- pause allowed where that is less, as long as the doubled base is in the range of 64 bits; the
-- jitter is put on top.
pub plain_backoff_lem :
    (base max n : ℕ)
    → 0 < base
    → base * 2 ^ n < 2 ^ 63
    → plain_backoff (pos base) (pos max) (suc n) ≡ pos (min (base * 2 ^ n) max)
unfolding plain_backoff
plain_backoff_lem base max zero p h = ground arith
plain_backoff_lem base max (suc n) p h =
    let small : 2 ^ suc n < 2 ^ 63 = omega (arith, power-le-multiple base (2 ^ suc n) p, h) in
    let e : suc (suc n) - 1 ≡ suc n = omega arith in
    let many : ltb 1 (suc (suc n)) ≡ true = ground arith in
    rw (many, e, shl64_small (suc n) small, mul64_pos base (2 ^ suc n) h)
      (cap (base * 2 ^ suc n) max)
