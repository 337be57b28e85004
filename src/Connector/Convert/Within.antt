-- ===== src/Connector/Convert/Within.antt =====
-- Texts that stand in other texts, as pkg/connector/convert.go joins and trims them.
use matrix_teams.Prelude.{
  ℕ, ◌≡◌, refl, sym, false, List, [], ◌∷◌, ◌++◌, append_assoc, append-nil, is_nil, inl, inr, arith,
  Bool-cases, Text, is_space, trim_left, trim_right, trim_space, join,
}

-- The item stands in the text.
abbrev pub Contains : Text → Text → Type 0
Contains t item = (front : Text) × (back : Text) × (t ≡ front ++ (item ++ back))

pub Contains-left : (t x y : Text) → Contains t (x ++ y) → Contains t x
Contains-left t x y (front, back, e) = (front, y ++ back, cc (e, append_assoc x y back))

pub Contains-right : (t x y : Text) → Contains t (x ++ y) → Contains t y
Contains-right t x y (front, back, e) =
    (front ++ x, back, cc (e, append_assoc x y back, append_assoc front x (y ++ back)))

Contains-prepend : (u t x : Text) → Contains t x → Contains (u ++ t) x
Contains-prepend u t x (front, back, e) =
    (u ++ front, back, cc (e, append_assoc u front (x ++ back)))

-- A separator changes no text that is joined.
pub join-Contains : (sep x : Text) (pre post : List Text) → Contains (join sep (pre ++ x ∷ post)) x
unfolding join
join-Contains sep x [] [] = ([], [], sym (append-nil x))
join-Contains sep x [] (y ∷ ys) =
    ([], sep ++ join sep (y ∷ ys), append_assoc x sep (join sep (y ∷ ys)))
join-Contains sep x (p ∷ []) post = Contains-prepend (p ++ sep) _ x (join-Contains sep x [] post)
join-Contains sep x (p ∷ q ∷ ps) post =
    Contains-prepend (p ++ sep) _ x (join-Contains sep x (q ∷ ps) post)

trim_left-keeps :
    (p : Text) (c : ℕ) (t : Text)
    → is_space c ≡ false
    → (q : Text) × (trim_left (p ++ c ∷ t) ≡ q ++ c ∷ t)
unfolding trim_left
trim_left-keeps [] c t h = ([], rw (h, trim_left) refl)
trim_left-keeps (d ∷ p) c t h = elim (Bool-cases (is_space d)) [
  | inl e ↦ let (q, k) = trim_left-keeps p c t h in (q, rw (e, trim_left) k)
  | inr e ↦ (d ∷ p, rw (e, trim_left) refl)
]

pub append_filled : (p : Text) (c : ℕ) (q : Text) → is_nil (p ++ c ∷ q) ≡ false
append_filled [] c q = refl
append_filled (d ∷ p) c q = refl

trim_right-keeps :
    (p : Text) (c : ℕ) (s : Text)
    → is_space c ≡ false
    → (q : Text) × (trim_right (p ++ c ∷ s) ≡ p ++ c ∷ q)
unfolding trim_right
trim_right-keeps [] c s h = (trim_right s, ground arith)
trim_right-keeps (d ∷ p) c s h =
    let (q, k) = trim_right-keeps p c s h in (q, rw (k, append_filled p c q) refl)

-- White space at the ends is cut off outside of an item that has none at its own.
pub trim_space-Contains :
    (t : Text) (c d : ℕ) (m : Text)
    → is_space c ≡ false
    → is_space d ≡ false
    → Contains t (c ∷ (m ++ d ∷ []))
    → Contains (trim_space t) (c ∷ (m ++ d ∷ []))
unfolding trim_space
trim_space-Contains t c d m hc hd (front, back, e) =
    let (p, left) = trim_left-keeps front c ((m ++ d ∷ []) ++ back) hc in
    let (q, right) = trim_right-keeps (p ++ c ∷ m) d back hd in
    (
      p,
      q,
      rw (e, left)
          (cc (
            right,
            append_assoc p (c ∷ m) (d ∷ back),
            append_assoc p (c ∷ m) (d ∷ q),
            append_assoc m (d ∷ []) back,
            append_assoc m (d ∷ []) q,
          )),
    )
