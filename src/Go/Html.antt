-- ===== src/Go/Html.antt =====
-- html.EscapeString of the standard library.
use matrix_teams.Prelude.{
  ℕ, ◌≡◌, Bool, true, not, ◌||◌, [], ◌∷◌, ◌++◌, ◌==◌, if◌then◌else◌, Text, codes, All, arith,
}

-- What stands for one rune.
unfoldable pub escape_rune : ℕ → Text
escape_rune c =
    if c == b'&'
    then codes "&amp;"
    else if c == b'\''
    then codes "&#39;"
    else if c == b'<'
    then codes "&lt;"
    else if c == b'>'
    then codes "&gt;"
    else if c == b'"'
    then codes "&#34;"
    else c ∷ []

unfoldable pub escape_string : Text → Text
unfolding escape_rune
escape_string [] = []
escape_string (c ∷ s) = escape_rune c ++ escape_string s

-- A rune that neither opens nor closes a tag or a quotation.
abbrev pub is_plain : ℕ → Bool
is_plain c = not (c == b'<' || c == b'>' || c == b'"' || c == b'\'')

abbrev pub IsPlain : Text → Type 0
IsPlain s = All (λ c. is_plain c ≡ true) s

pub append-IsPlain : (s t : Text) → IsPlain s → IsPlain t → IsPlain (s ++ t)
append-IsPlain [] t h k = k
append-IsPlain (c ∷ s) t (p, h) k = (p, append-IsPlain s t h k)

escape_rune-IsPlain : (c : ℕ) → IsPlain (escape_rune c)
unfolding escape_rune
escape_rune-IsPlain c = ground arith

pub escape_string-IsPlain : (s : Text) → IsPlain (escape_string s)
unfolding escape_string
escape_string-IsPlain [] = tt
escape_string-IsPlain (c ∷ s) =
    append-IsPlain (escape_rune c) (escape_string s) (escape_rune-IsPlain c)
      (escape_string-IsPlain s)
