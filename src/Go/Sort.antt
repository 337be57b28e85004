-- ===== src/Go/Sort.antt =====
-- sort.Slice: what its documentation promises, and the insertion sort, by which Go sorts a slice of
-- at most twelve elements.
use matrix_teams.Prelude.{
  ℕ, ◌+◌, ◌≤◌, ◌≡◌, refl, Bool, List, [], ◌∷◌, ltb, if◌then◌else◌, All, arith, Bool-cases, inl, inr,
}

-- How many elements pass a test.
abbrev pub count {ℓ} : {A : Type ℓ} → (A → Bool) → List A → ℕ
count p [] = 0
count p (x ∷ xs) = let n = count p xs in if p x then n + 1 else n

-- Each key is at most those behind it.
abbrev pub IsAscending {ℓ} : {A : Type ℓ} → (A → ℕ) → List A → Type 0
IsAscending k [] = Unit
IsAscending k (x ∷ xs) = All (λ y. k x ≤ k y) xs × IsAscending k xs

-- sort.Slice with its test on two elements: it keeps the number of elements of any kind, and orders a
-- list on which the test compares keys.
pub record Sorter {ℓ} (A : Type ℓ) : Type (ℓ ⊔ 1) where
  pub sort : (A → A → Bool) → List A → List A
  pub keeps :
      (less : A → A → Bool) (p : A → Bool) (xs : List A) → count p (sort less xs) ≡ count p xs
  pub orders :
      (less : A → A → Bool) (P : A → Type 0) (k : A → ℕ) (xs : List A)
      → ((a b : A) → P a → P b → less a b ≡ ltb (k a) (k b))
      → All P xs
      → IsAscending k (sort less xs)

module _ {A : Type 0} (less : A → A → Bool) where
  -- An element moves in front of those that it is less than.
  unfoldable pub insert_sorted : A → List A → List A
  insert_sorted x [] = x ∷ []
  insert_sorted x (y ∷ ys) =
      let rest = insert_sorted x ys in if less y x then y ∷ rest else x ∷ y ∷ ys

  unfoldable pub insertion_sort : List A → List A
  insertion_sort [] = []
  insertion_sort (x ∷ xs) = insert_sorted x (insertion_sort xs)

  count-insert_sorted :
      (p : A → Bool) (x : A) (xs : List A) → count p (insert_sorted x xs) ≡ count p (x ∷ xs)
  unfolding insert_sorted
  count-insert_sorted p x [] = refl
  count-insert_sorted p x (y ∷ ys) = ground (arith, count-insert_sorted p x ys)

  pub count-insertion_sort : (p : A → Bool) (xs : List A) → count p (insertion_sort xs) ≡ count p xs
  unfolding insertion_sort
  count-insertion_sort p [] = refl
  count-insertion_sort p (x ∷ xs) =
      ground (arith, count-insert_sorted p x (insertion_sort xs), count-insertion_sort p xs)

  insert_sorted-All :
      (Q : A → Type 0) (x : A) (xs : List A) → Q x → All Q xs → All Q (insert_sorted x xs)
  unfolding insert_sorted
  insert_sorted-All Q x [] q h = (q, tt)
  insert_sorted-All Q x (y ∷ ys) q (h, hs) = elim (Bool-cases (less y x)) [
    | inl e ↦ rw e (h, insert_sorted-All Q x ys q hs)
    | inr e ↦ rw e (q, (h, hs))
  ]

  pub insertion_sort-All : (Q : A → Type 0) (xs : List A) → All Q xs → All Q (insertion_sort xs)
  unfolding insertion_sort
  insertion_sort-All Q [] h = tt
  insertion_sort-All Q (x ∷ xs) (h, hs) =
      insert_sorted-All Q x (insertion_sort xs) h (insertion_sort-All Q xs hs)

  module _ (P : A → Type 0) (k : A → ℕ)
      (agree : (a b : A) → P a → P b → less a b ≡ ltb (k a) (k b)) where
    All-le : (x y : A) (ys : List A) → k x ≤ k y → All (λ z. k y ≤ k z) ys → All (λ z. k x ≤ k z) ys
    All-le x y [] h hs = tt
    All-le x y (z ∷ zs) h (g, gs) = (omega arith, All-le x y zs h gs)

    insert_sorted-IsAscending :
        (x : A) (xs : List A)
        → P x
        → All P xs
        → IsAscending k xs
        → IsAscending k (insert_sorted x xs)
    unfolding insert_sorted
    insert_sorted-IsAscending x [] p ps h = (tt, tt)
    insert_sorted-IsAscending x (y ∷ ys) p (q, qs) (h, hs) = elim (Bool-cases (less y x)) [
      | inl e ↦ rw e (
        insert_sorted-All (λ z. k y ≤ k z) x ys (ground (arith, agree y x q p)) h,
        insert_sorted-IsAscending x ys p qs hs,
      )
      | inr e ↦
          let at : k x ≤ k y = ground (arith, agree y x q p) in
          rw e ((at, All-le x y ys at h), (h, hs))
    ]

    pub insertion_sort-IsAscending : (xs : List A) → All P xs → IsAscending k (insertion_sort xs)
    unfolding insertion_sort
    insertion_sort-IsAscending [] h = tt
    insertion_sort-IsAscending (x ∷ xs) (h, hs) =
        insert_sorted-IsAscending x (insertion_sort xs) h (insertion_sort-All P xs hs)
          (insertion_sort-IsAscending xs hs)

-- The insertion sort is a sort.Slice.
abbrev pub insertion_sorter : {A : Type 0} → Sorter A
insertion_sorter = record {
  sort = insertion_sort;
  keeps = count-insertion_sort;
  orders = λ less P k xs agree h. insertion_sort-IsAscending less P k agree xs h;
}
