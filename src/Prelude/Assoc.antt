-- ===== src/Prelude/Assoc.antt =====
-- Go maps with text keys, as association lists. A missing key reads as `none`.
use mathlib.Core.Path.{◌≡◌, refl}
use mathlib.Core.Logic.{inl, inr}
use mathlib.Core.Bool.{Bool}
use mathlib.Core.Option.{Option, none, some}
use mathlib.Core.List.{List, [], ◌∷◌, ◌++◌}
use native.Mathlib.Omega.{arith}
use matrix_teams.Prelude.Tests.{if◌then◌else◌, Bool-cases}
use matrix_teams.Prelude.Strings.{Text, text_eq, text_eq_iff}

module _ {ℓ} {V : Type ℓ} where
  -- v, ok := m[k]
  unfoldable pub lookup : List (Text × V) → Text → Option V
  lookup [] k = none
  lookup ((j, v) ∷ m) k = if text_eq j k then some v else lookup m k

  -- m[k] = v
  unfoldable pub insert : List (Text × V) → Text → V → List (Text × V)
  insert [] k v = (k, v) ∷ []
  insert ((j, w) ∷ m) k v = if text_eq j k then (k, v) ∷ m else (j, w) ∷ insert m k v

  -- delete(m, k)
  unfoldable pub erase : List (Text × V) → Text → List (Text × V)
  erase [] k = []
  erase ((j, w) ∷ m) k = let rest = erase m k in if text_eq j k then rest else (j, w) ∷ rest

  pub lookup-insert :
      (m : List (Text × V)) (k j : Text) (v : V)
      → lookup (insert m k v) j ≡ (if text_eq k j then some v else lookup m j)
  unfolding lookup insert
  lookup-insert [] k j v = refl
  lookup-insert ((i, w) ∷ m) k j v =
      ground (arith, text_eq_iff k j, text_eq_iff i k, text_eq_iff i j, lookup-insert m k j v)

  pub lookup-erase :
      (m : List (Text × V)) (k j : Text)
      → lookup (erase m k) j ≡ (if text_eq k j then none else lookup m j)
  unfolding lookup erase
  lookup-erase [] k j = ground arith
  lookup-erase ((i, w) ∷ m) k j =
      ground (arith, text_eq_iff k j, text_eq_iff i k, text_eq_iff i j, lookup-erase m k j)

  -- for k, v := range m { if !p(v) { delete(m, k) } }
  unfoldable pub retain : (V → Bool) → List (Text × V) → List (Text × V)
  retain p [] = []
  retain p ((j, v) ∷ m) = let rest = retain p m in if p v then (j, v) ∷ rest else rest

  -- No key stands twice.
  abbrev pub IsDistinct : List (Text × V) → Type ℓ
  IsDistinct [] = Unit
  IsDistinct ((k, v) ∷ m) = (lookup m k ≡ none) × IsDistinct m

  pub insert-IsDistinct :
      (m : List (Text × V)) (k : Text) (v : V) → IsDistinct m → IsDistinct (insert m k v)
  unfolding insert
  insert-IsDistinct [] k v h = (unfold lookup in refl, tt)
  insert-IsDistinct ((j, w) ∷ m) k v (fresh, h) = elim (Bool-cases (text_eq j k)) [
    | inl e ↦ rw e (let e' : j ≡ k = (text_eq_iff j k).0 e in rw (← e') fresh, h)
    | inr e ↦ rw e (
      ground (arith, lookup-insert m k j v, text_eq_iff j k, text_eq_iff k j),
      insert-IsDistinct m k v h,
    )
  ]

  lookup-erase-none :
      (m : List (Text × V)) (k j : Text) → lookup m j ≡ none → lookup (erase m k) j ≡ none
  lookup-erase-none m k j h = ground (arith, lookup-erase m k j)

  pub erase-IsDistinct : (m : List (Text × V)) (k : Text) → IsDistinct m → IsDistinct (erase m k)
  unfolding erase
  erase-IsDistinct [] k h = tt
  erase-IsDistinct ((j, w) ∷ m) k (fresh, h) = elim (Bool-cases (text_eq j k)) [
    | inl e ↦ rw e (erase-IsDistinct m k h)
    | inr e ↦ rw e (lookup-erase-none m k j fresh, erase-IsDistinct m k h)
  ]

  lookup-retain-none :
      (p : V → Bool) (m : List (Text × V)) (k : Text)
      → lookup m k ≡ none
      → lookup (retain p m) k ≡ none
  unfolding lookup retain
  lookup-retain-none p [] k h = refl
  lookup-retain-none p ((j, w) ∷ m) k h = ground (arith, lookup-retain-none p m k)

  pub retain-IsDistinct :
      (p : V → Bool) (m : List (Text × V)) → IsDistinct m → IsDistinct (retain p m)
  unfolding retain
  retain-IsDistinct p [] h = tt
  retain-IsDistinct p ((j, w) ∷ m) (fresh, h) = elim (Bool-cases (p w)) [
    | inl e ↦ rw e (lookup-retain-none p m j fresh, retain-IsDistinct p m h)
    | inr e ↦ rw e (retain-IsDistinct p m h)
  ]

  -- What a value must satisfy to stay.
  abbrev pub kept : (V → Bool) → Option V → Option V
  kept p none = none
  kept p (some v) = if p v then some v else none

  pub lookup-retain :
      (p : V → Bool) (m : List (Text × V)) (k : Text)
      → IsDistinct m
      → lookup (retain p m) k ≡ kept p (lookup m k)
  unfolding lookup retain
  lookup-retain p [] k h = refl
  lookup-retain p ((j, w) ∷ m) k (fresh, h) =
      ground (arith, lookup-retain p m k h, lookup-retain-none p m j fresh, text_eq_iff j k)

  -- A new key goes to the end.
  pub insert_fresh :
      (m : List (Text × V)) (k : Text) (v : V)
      → lookup m k ≡ none
      → insert m k v ≡ m ++ ((k, v) ∷ [])
  unfolding lookup insert
  insert_fresh [] k v h = refl
  insert_fresh ((j, w) ∷ m) k v h = ground (arith, insert_fresh m k v)

  pub lookup-append :
      (m n : List (Text × V)) (k : Text) → lookup m k ≡ none → lookup (m ++ n) k ≡ lookup n k
  unfolding lookup
  lookup-append [] n k h = refl
  lookup-append ((j, w) ∷ m) n k h = ground (arith, lookup-append m n k)
