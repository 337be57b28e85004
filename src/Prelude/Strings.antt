-- ===== src/Prelude/Strings.antt =====
-- Go strings as lists of runes, and the functions of package strings that the bridge calls.
-- A string that is not valid UTF-8 has no counterpart here.
use Prim.Native.Nat.{ℕ, zero, suc, ◌+◌, ◌-◌}
use Prim.Native.Char.{code}
use Prim.Native.String.{String}
use mathlib.Core.Path.{◌≡◌, refl}
use mathlib.Core.Logic.{◌↔◌, inl, inr}
use mathlib.Core.Bool.{Bool, true, false, ◌&&◌, ◌||◌}
use mathlib.Core.List.{List, [], ◌∷◌, ◌++◌}
use native.Mathlib.Omega.{arith}
use matrix_teams.Prelude.Tests.{leb, ◌==◌, if◌then◌else◌, Bool-cases}
use matrix_teams.Prelude.Lists.{is_nil, drop, length, All}

abbrev pub Text : Type 0
Text = List ℕ

-- The runes of a literal.
abbrev pub codes : String → Text
codes String.[] = []
codes (String.◌∷◌ c s) = code c ∷ codes s

-- s == t
unfoldable pub text_eq : Text → Text → Bool
text_eq [] [] = true
text_eq [] (d ∷ t) = false
text_eq (c ∷ s) [] = false
text_eq (c ∷ s) (d ∷ t) = c == d && text_eq s t

-- unicode.IsSpace
unfoldable pub is_space : ℕ → Bool
is_space c =
    leb 9 c && leb c 13
    || c == 32
    || c == 0x85
    || c == 0xa0
    || c == 0x1680
    || leb 0x2000 c && leb c 0x200a
    || c == 0x2028
    || c == 0x2029
    || c == 0x202f
    || c == 0x205f
    || c == 0x3000

unfoldable pub trim_left : Text → Text
trim_left [] = []
trim_left (c ∷ s) = elim (is_space c) [ true ↦ trim_left s | false ↦ c ∷ s ]

unfoldable pub trim_right : Text → Text
trim_right [] = []
trim_right (c ∷ s) = let rest = trim_right s in if is_nil rest && is_space c then [] else c ∷ rest

-- strings.TrimSpace
unfoldable pub trim_space : Text → Text
unfolding trim_left trim_right is_space
trim_space s = trim_right (trim_left s)

-- strings.HasPrefix
unfoldable pub has_prefix : Text → Text → Bool
has_prefix s [] = true
has_prefix [] (p ∷ ps) = false
has_prefix (c ∷ s) (p ∷ ps) = c == p && has_prefix s ps

-- strings.TrimPrefix
unfoldable pub trim_prefix : Text → Text → Text
unfolding has_prefix
trim_prefix s p = if has_prefix s p then drop (length p) s else s

-- strings.Contains
unfoldable pub contains : Text → Text → Bool
unfolding has_prefix
contains [] p = is_nil p
contains (c ∷ s) p = has_prefix (c ∷ s) p || contains s p

pub text_eq_iff : (s t : Text) → (text_eq s t ≡ true) ↔ (s ≡ t)
unfolding text_eq
text_eq_iff [] [] = ground arith
text_eq_iff [] (d ∷ t) = ground arith
text_eq_iff (c ∷ s) [] = ground arith
text_eq_iff (c ∷ s) (d ∷ t) = ground (arith, text_eq_iff s t)

pub text_eq_refl : (s : Text) → text_eq s s ≡ true
text_eq_refl s = (text_eq_iff s s).1 refl

-- A text without white space at its ends.
abbrev pub IsTrimmed : Text → Type 0
IsTrimmed s = trim_space s ≡ s

trim_left-fix : (s : Text) → trim_left (trim_left s) ≡ trim_left s
unfolding trim_left
trim_left-fix [] = refl
trim_left-fix (c ∷ s) = elim (Bool-cases (is_space c)) [
  | inl e ↦ rw (e, trim_left) (trim_left-fix s)
  | inr e ↦ rw (e, trim_left) (rw (e, trim_left) refl)
]

trim_right-fix : (s : Text) → trim_right (trim_right s) ≡ trim_right s
unfolding trim_right
trim_right-fix [] = refl
trim_right-fix (c ∷ s) = ground (arith, trim_right-fix s)

-- Dropping at the end keeps a first rune that is no space.
trim_left-trim_right : (s : Text) → trim_left (trim_right (trim_left s)) ≡ trim_right (trim_left s)
unfolding trim_left trim_right
trim_left-trim_right [] = refl
trim_left-trim_right (c ∷ s) = elim (Bool-cases (is_space c)) [
  | inl e ↦ rw (e, trim_left) (trim_left-trim_right s)
  | inr e ↦ ground arith
]

pub trim_space-IsTrimmed : (s : Text) → IsTrimmed (trim_space s)
unfolding trim_space
trim_space-IsTrimmed s = rw (trim_left-trim_right s) (trim_right-fix (trim_left s))

-- A text without any white space is trimmed.
trim_right-solid : (s : Text) → All (λ c. is_space c ≡ false) s → trim_right s ≡ s
unfolding trim_right
trim_right-solid [] h = refl
trim_right-solid (c ∷ s) (d, ds) = ground (arith, trim_right-solid s ds)

pub trim_space-solid : (s : Text) → All (λ c. is_space c ≡ false) s → trim_space s ≡ s
unfolding trim_space
trim_space-solid [] h = refl
trim_space-solid (c ∷ s) (d, ds) = rw (d, trim_left) (trim_right-solid (c ∷ s) (d, ds))

-- strings.ToLower and strings.EqualFold, where all letters are ASCII, as in identifiers and tags.
pub lower : ℕ → ℕ
lower c = if leb b'A' c && leb c b'Z' then c + 32 else c

unfoldable pub to_lower : Text → Text
unfolding lower
to_lower [] = []
to_lower (c ∷ s) = lower c ∷ to_lower s

unfoldable pub equal_fold : Text → Text → Bool
unfolding to_lower text_eq
equal_fold s t = text_eq (to_lower s) (to_lower t)

-- Membership in a list of texts.
unfoldable pub one_of : Text → List Text → Bool
unfolding text_eq
one_of s [] = false
one_of s (t ∷ ts) = text_eq s t || one_of s ts

-- strings.HasSuffix
unfoldable pub has_suffix : Text → Text → Bool
unfolding text_eq
has_suffix [] p = is_nil p
has_suffix (c ∷ s) p = text_eq (c ∷ s) p || has_suffix s p

-- strings.Join
unfoldable pub join : Text → List Text → Text
join sep [] = []
join sep (t ∷ []) = t
join sep (t ∷ u ∷ ts) = t ++ sep ++ join sep (u ∷ ts)

-- strings.ReplaceAll of a text of one or more runes; the number is what is left to skip.
unfoldable pub replace_from : ℕ → Text → Text → Text → Text
unfolding has_prefix
replace_from n old new [] = []
replace_from zero old new (c ∷ s) =
    let found = new ++ replace_from (length old - 1) old new s in
    let other = c ∷ replace_from zero old new s in if has_prefix (c ∷ s) old then found else other
replace_from (suc n) old new (c ∷ s) = replace_from n old new s

unfoldable pub replace_all : Text → Text → Text → Text
unfolding replace_from
replace_all s old new = replace_from 0 old new s

-- strings.Fields: the words between white space; the first argument is the word read so far.
fields_from : Text → Text → List Text
fields_from word [] = if is_nil word then [] else word ∷ []
fields_from word (c ∷ s) =
    let next = fields_from [] s in
    let more = fields_from (word ++ (c ∷ [])) s in
    if is_space c then (if is_nil word then next else word ∷ next) else more

unfoldable pub words : Text → List Text
unfolding fields_from is_space
words s = fields_from [] s
