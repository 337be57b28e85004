-- ===== src/Model/Sequence.antt =====
-- `CompareSequenceID` of internal/teams/model/message.go, by which the poll cursor moves.
pub mod Order
mod Examples
use matrix_teams.Prelude.{ℕ, compare, Ordering, Option, none, some, [], ◌∷◌, Text}
use matrix_teams.Go.Strconv.{parse_uint}

-- strings.Compare: on valid UTF-8 the order of bytes is that of runes.
compare_text : Text → Text → Ordering
compare_text [] [] = Ordering.eq
compare_text [] (d ∷ t) = Ordering.lt
compare_text (c ∷ s) [] = Ordering.gt
compare_text (c ∷ s) (d ∷ t) =
    let rest = compare_text s t in
    elim (compare c d) [
      | Ordering.lt ↦ Ordering.lt
      | Ordering.eq ↦ rest
      | Ordering.gt ↦ Ordering.gt
    ]

compare_parsed : Option ℕ → Option ℕ → Text → Text → Ordering
unfolding compare_text
compare_parsed none b_num a b = compare_text a b
compare_parsed (some m) none a b = compare_text a b
compare_parsed (some m) (some n) a b = compare m n

-- -1, 0 and 1 are `lt`, `eq` and `gt`.
unfoldable pub compare_sequence_id : Text → Text → Ordering
unfolding compare_parsed parse_uint
compare_sequence_id a b = compare_parsed (parse_uint a) (parse_uint b) a b
