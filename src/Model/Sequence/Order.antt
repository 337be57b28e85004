-- ===== src/Model/Sequence/Order.antt =====
-- Where `CompareSequenceID` (internal/teams/model/message.go) is an order.
use matrix_teams.Prelude.{
  ℕ, ◌<◌, ◌^◌, compare, Ordering, ◌≡◌, refl, Option, none, some, [], ◌∷◌, arith, Text,
}
use matrix_teams.Go.Strconv.{parse_uint, format_uint}
use matrix_teams.Go.Strconv.RoundTrip.{parse_uint-format_uint}
use matrix_teams.Model.Sequence.{compare_text, compare_parsed, compare_sequence_id}

abbrev pub flip : Ordering → Ordering
flip Ordering.lt = Ordering.gt
flip Ordering.eq = Ordering.eq
flip Ordering.gt = Ordering.lt

compare-flip : (m n : ℕ) → compare n m ≡ flip (compare m n)
compare-flip m n = ground arith

compare_text-flip : (a b : Text) → compare_text b a ≡ flip (compare_text a b)
unfolding compare_text
compare_text-flip [] [] = refl
compare_text-flip [] (d ∷ t) = refl
compare_text-flip (c ∷ s) [] = refl
compare_text-flip (c ∷ s) (d ∷ t) = ground (arith, compare_text-flip s t, compare-flip c d)

compare_parsed-flip :
    (m n : Option ℕ) (a b : Text) → compare_parsed n m b a ≡ flip (compare_parsed m n a b)
unfolding compare_parsed
compare_parsed-flip none none a b = compare_text-flip a b
compare_parsed-flip none (some n) a b = compare_text-flip a b
compare_parsed-flip (some m) none a b = compare_text-flip a b
compare_parsed-flip (some m) (some n) a b = compare-flip m n

-- Exchanging the two identifiers turns the answer round, numbers or not.
pub compare_sequence_id-flip :
    (a b : Text) → compare_sequence_id b a ≡ flip (compare_sequence_id a b)
unfolding compare_sequence_id
compare_sequence_id-flip a b = compare_parsed-flip (parse_uint a) (parse_uint b) a b

-- Identifiers that are both decimal numbers below 2^64 are compared by their values.
pub compare_numbers :
    (a b : Text) (m n : ℕ)
    → parse_uint a ≡ some m
    → parse_uint b ≡ some n
    → compare_sequence_id a b ≡ compare m n
unfolding compare_sequence_id
compare_numbers a b m n p q = rw (p, q, compare_parsed)

-- Printed numbers are compared by their values.
pub compare_printed :
    (m n : ℕ)
    → m < 2 ^ 64
    → n < 2 ^ 64
    → compare_sequence_id (format_uint m) (format_uint n) ≡ compare m n
compare_printed m n p q =
    compare_numbers (format_uint m) (format_uint n) m n (parse_uint-format_uint m p)
      (parse_uint-format_uint n q)

compare_text_refl : (a : Text) → compare_text a a ≡ Ordering.eq
unfolding compare_text
compare_text_refl [] = refl
compare_text_refl (c ∷ s) = ground (arith, compare_text_refl s)

pub compare_sequence_id_refl : (a : Text) → compare_sequence_id a a ≡ Ordering.eq
unfolding compare_sequence_id
compare_sequence_id_refl a = at (parse_uint a)
  where
    at : (m : Option ℕ) → compare_parsed m m a a ≡ Ordering.eq
    at none = unfold compare_parsed in compare_text_refl a
    at (some m) = unfold compare_parsed in ground arith
