-- ===== src/Go/Strconv/Digits.antt =====
-- Decimal digits (package strconv) read back what they print.
use matrix_teams.Prelude.{
  ℕ, zero, suc, ◌+◌, ◌/◌, ◌%◌, ◌≤◌, ◌≡◌, refl, ◌∙◌, ◌≢◌, false, some, [], ◌∷◌, arith, ◌==◌, Text,
  Bool-cases, inl, inr, All, is_space,
}
use mathlib.Core.List.{cons-ne-nil}
use matrix_teams.Go.Strconv.{IsDigit, digits_from, digits_value, emit, format_uint}

-- The last digit of n, read after the digits before it, gives n.
digits_from_last :
    (n : ℕ) (out : Text) → digits_from ((b'0' + n % 10) ∷ out) (n / 10) ≡ digits_from out n
unfolding digits_from
digits_from_last n out = ground arith

digits_from-emit :
    (fuel n : ℕ) (out : Text) → n ≤ fuel → digits_from (emit fuel n out) 0 ≡ digits_from out n
unfolding emit
digits_from-emit zero n out h = let e : n ≡ 0 = omega arith in rw e
digits_from-emit (suc fuel) n out h =
    ground (arith, digits_from-emit fuel (n / 10) ((b'0' + n % 10) ∷ out), digits_from_last n out)

emit-ne-nil : (fuel n : ℕ) (out : Text) → out ≢ [] → emit fuel n out ≢ []
unfolding emit
emit-ne-nil zero n out h = h
emit-ne-nil (suc fuel) n out h = ground (arith, emit-ne-nil fuel (n / 10) ((b'0' + n % 10) ∷ out))

digits_value-digits_from : (s : Text) → s ≢ [] → digits_value s ≡ digits_from s 0
unfolding digits_value
digits_value-digits_from [] h = absurd (h refl)
digits_value-digits_from (c ∷ s) h = refl

format_uint-suc : (k : ℕ) → format_uint (suc k) ≡ emit k (suc k / 10) ((b'0' + suc k % 10) ∷ [])
unfolding format_uint
format_uint-suc k = ground arith

pub format_uint-ne-nil : (n : ℕ) → format_uint n ≢ []
format_uint-ne-nil zero = unfold format_uint in cons-ne-nil _ _
format_uint-ne-nil (suc k) = rw (format_uint-suc k) (emit-ne-nil k (suc k / 10) _ (cons-ne-nil _ _))

digits_from-format_uint : (n : ℕ) → digits_from (format_uint n) 0 ≡ some n
digits_from-format_uint zero = unfold format_uint digits_from in refl
digits_from-format_uint (suc k) = rw (format_uint-suc k) (
    digits_from-emit k (suc k / 10) _ (omega arith)
    ∙ digits_from_last (suc k) []
    ∙ (unfold digits_from in refl))

pub digits_value-format_uint : (n : ℕ) → digits_value (format_uint n) ≡ some n
digits_value-format_uint n =
    rw (digits_value-digits_from _ (format_uint-ne-nil n)) (digits_from-format_uint n)

-- All runes are digits.
All-emit : (fuel n : ℕ) (out : Text) → All IsDigit out → All IsDigit (emit fuel n out)
unfolding emit
All-emit zero n out h = h
All-emit (suc fuel) n out h = elim (Bool-cases (n == 0)) [
  | inl e ↦ rw e h
  | inr e ↦ rw e (All-emit fuel (n / 10) ((b'0' + n % 10) ∷ out) (omega arith, h))
]

pub format_uint-All : (n : ℕ) → All IsDigit (format_uint n)
format_uint-All zero = unfold format_uint in (omega arith, tt)
format_uint-All (suc k) = rw (format_uint-suc k) (All-emit k (suc k / 10) _ (omega arith, tt))

-- Digits are no white space.
pub digit_no_space : (c : ℕ) → IsDigit c → is_space c ≡ false
unfolding is_space
digit_no_space c h = ground arith

pub digits_solid : (s : Text) → All IsDigit s → All (λ c. is_space c ≡ false) s
digits_solid [] h = tt
digits_solid (c ∷ s) (d, ds) = (digit_no_space c d, digits_solid s ds)
