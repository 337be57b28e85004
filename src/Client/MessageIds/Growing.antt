-- ===== src/Client/MessageIds/Growing.antt =====
-- However the calls interleave, the numbers that they give grow, so no two are the same.
use matrix_teams.Prelude.{
  ℕ, suc, ◌+◌, ◌^◌, ◌≤◌, ◌<◌, ◌≡◌, arith, ◌==◌, ==_iff, inl, inr, Bool-cases, List, [], ◌∷◌, ◌++◌,
  length, All,
}
use matrix_teams.Client.MessageIds.{
  Caller, loading, swapping, returned, next_after, step, won, Shared, Event, call, act, put, apply,
  run,
}

-- Each number is below the one before it in the list, the first is below the bound.
abbrev pub IsDescending : ℕ → List ℕ → Type 0
IsDescending top [] = Unit
IsDescending top (n ∷ ns) = (n < top) × IsDescending n ns

-- A call enters at a time in the range of a signed integer.
abbrev pub IsTimely : Event → Type 0
IsTimely (call i now) = now < 2 ^ 63
IsTimely (act i) = Unit

-- A call whose numbers are at most n + 1.
abbrev Fits : ℕ → Caller → Type 0
Fits n (loading now) = now ≤ n + 1
Fits n (swapping now prev) = (prev < now) × (now ≤ n + 1)
Fits n (returned now) = Unit

abbrev Inv : ℕ → Shared → Type 0
Inv n w = (w.counter ≤ n) × ((i : ℕ) → Fits n (w.callers i)) × IsDescending (w.counter + 1) w.issued

IsDescending-mono : (a b : ℕ) (ns : List ℕ) → a ≤ b → IsDescending a ns → IsDescending b ns
IsDescending-mono a b [] h d = d
IsDescending-mono a b (n ∷ ns) h (l, d) = (omega arith, d)

Fits-suc : (n : ℕ) (c : Caller) → Fits n c → Fits (suc n) c
Fits-suc n (loading now) h = omega arith
Fits-suc n (swapping now prev) (l, h) = (l, omega arith)
Fits-suc n (returned now) h = tt

next_after-Fits :
    (n now counter : ℕ)
    → suc n < 2 ^ 64
    → now ≤ n + 1
    → counter ≤ n
    → (counter < next_after now counter) × (next_after now counter ≤ n + 1)
unfolding next_after
next_after-Fits n now counter small h k = ground arith

-- What one step of a call does to the invariant.
step-Fits :
    (n counter : ℕ) (c : Caller)
    → suc n < 2 ^ 64
    → counter ≤ n
    → Fits n c
    → ((step counter c).1 ≤ suc n) × Fits (suc n) (step counter c).0
unfolding step
step-Fits n counter (loading now) small k h = (
  omega arith,
  Fits-suc n (swapping (next_after now counter) counter) (next_after-Fits n now counter small h k),
)
step-Fits n counter (swapping now prev) small k (l, h) = elim (Bool-cases (counter == prev)) [
  | inl e ↦ rw e (omega arith, tt)
  | inr e ↦ rw e (omega arith, omega arith)
]
step-Fits n counter (returned now) small k h = (omega arith, tt)

step-IsDescending :
    (n counter : ℕ) (c : Caller) (ns : List ℕ)
    → Fits n c
    → IsDescending (counter + 1) ns
    → IsDescending ((step counter c).1 + 1) (won counter c ++ ns)
unfolding step won
step-IsDescending n counter (loading now) ns h d = d
step-IsDescending n counter (returned now) ns h d = d
step-IsDescending n counter (swapping now prev) ns (l, h) d = elim (Bool-cases (counter == prev)) [
  | inl e ↦
      let same : counter ≡ prev = (==_iff counter prev).0 e in
      rw e (omega arith, IsDescending-mono (counter + 1) now ns (omega arith) d)
  | inr e ↦ rw e d
]

put-Fits :
    (n i : ℕ) (c : Caller) (callers : ℕ → Caller)
    → Fits n c
    → ((j : ℕ) → Fits n (callers j))
    → (j : ℕ) → Fits n (put i c callers j)
put-Fits n i c callers h hs j = elim (Bool-cases (j == i)) [ inl e ↦ rw e h | inr e ↦ rw e (hs j) ]

apply-Inv :
    (n : ℕ) (e : Event) (w : Shared)
    → 2 ^ 63 ≤ n + 1
    → suc n < 2 ^ 64
    → IsTimely e
    → Inv n w
    → Inv (suc n) (apply e w)
unfolding apply
apply-Inv n (call i now) w big small t (k, hs, d) = (
  omega arith,
  put-Fits (suc n) i (loading now) w.callers (omega arith) (λ j. Fits-suc n (w.callers j) (hs j)),
  d,
)
apply-Inv n (act i) w big small t (k, hs, d) =
    let (k', h') = step-Fits n w.counter (w.callers i) small k (hs i) in
    (
      k',
      put-Fits (suc n) i (step w.counter (w.callers i)).0 w.callers h'
          (λ j. Fits-suc n (w.callers j) (hs j)),
      step-IsDescending n w.counter (w.callers i) w.issued (hs i) d,
    )

run-Inv :
    (es : List Event) (n : ℕ) (w : Shared)
    → 2 ^ 63 ≤ n + 1
    → n + length es < 2 ^ 64
    → All IsTimely es
    → Inv n w
    → IsDescending ((run es w).counter + 1) (run es w).issued
unfolding run
run-Inv [] n w big small ts (k, hs, d) = d
run-Inv (e ∷ es) n w big small (t, ts) inv =
    run-Inv es (suc n) (apply e w) (omega arith) (omega arith) ts
      (apply-Inv n e w big (omega arith) t inv)

-- No call in progress, nothing handed out yet.
abbrev pub fresh : ℕ → Shared
fresh counter = record { counter = counter; callers = λ i. returned 0; issued = [] }

-- From a counter in the range of a signed integer, and for any interleaving of the steps of any
-- number of goroutines, of at most 2^62 steps: each number handed out is above all before it.
pub run-IsDescending :
    (es : List Event) (counter : ℕ)
    → counter < 2 ^ 63
    → length es ≤ 2 ^ 62
    → All IsTimely es
    → IsDescending ((run es (fresh counter)).counter + 1) (run es (fresh counter)).issued
run-IsDescending es counter h l ts =
    run-Inv es (2 ^ 63) (fresh counter) (omega arith) (omega arith) ts (omega arith, (λ i. tt), tt)
