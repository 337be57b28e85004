-- ===== src/Prelude/Power.antt =====
-- Powers of two.
use Prim.Native.Nat.{ℕ, zero, suc, ◌+◌, ◌-◌, ◌*◌, ◌^◌, ◌≤◌}
use mathlib.Core.Path.{◌≡◌, ◌∙◌, ap}
use native.Mathlib.Omega.{arith}
use native.Mathlib.Nat.{add-zero, mul_assoc, pow-suc, pow-le-pow_right}

pub two_pow-add : (a b : ℕ) → 2 ^ (a + b) ≡ 2 ^ a * 2 ^ b
two_pow-add a zero = omega (arith, ap (λ (n : ℕ). 2 ^ n) (add-zero a))
two_pow-add a (suc b) =
    let e : 2 ^ (a + suc b) ≡ 2 ^ suc (a + b) = ap (λ (n : ℕ). 2 ^ n) (omega arith) in
    cc (e, pow-suc 2 (a + b), pow-suc 2 b, two_pow-add a b, mul_assoc (2 ^ a) (2 ^ b) 2)

pub two_pow_mono : (a b : ℕ) → a ≤ b → 2 ^ a ≤ 2 ^ b
two_pow_mono a b h = pow-le-pow_right {n = 2} (omega arith) h

pub two_pow_split : (a b : ℕ) → a ≤ b → 2 ^ b ≡ 2 ^ a * 2 ^ (b - a)
two_pow_split a b h =
    let e : 2 ^ b ≡ 2 ^ (a + (b - a)) = ap (λ (n : ℕ). 2 ^ n) (omega arith) in
    e ∙ two_pow-add a (b - a)
