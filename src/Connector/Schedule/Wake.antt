-- ===== src/Connector/Schedule/Wake.antt =====
-- When the loop of `pollDueThreads` wakes up.
use matrix_teams.Prelude.{
  ◌+◌, ◌≤◌, ◌≡◌, refl, arith, true, false, Option, some, List, [], ◌∷◌, inl, inr, ◌⊎◌, ltb, is_nil,
  ℤ, Text, text_eq, text_eq_refl, lookup, insert, lookup-insert, Bool-cases, All,
}
use matrix_teams.Client.Errors.{TeamsError}
use matrix_teams.Connector.Tracker.{Time}
use matrix_teams.Connector.Schedule.{
  PollState, Pass, earlier, state_of, polled, visit, pass_from, pass_due, sleep_time,
  poll_due_threads,
}

earlier-le : (a b : Time) → (earlier a b ≤ a) × (earlier a b ≤ b)
earlier-le a b = ground arith

sleep_time-bound :
    (ended wake due : Time)
    → wake ≤ due
    → (ended + sleep_time ended wake ≤ due) ⊎ (ended + sleep_time ended wake ≤ ended + 100_000_000)
unfolding sleep_time
sleep_time-bound ended wake due h = ground arith

module _ {W : Type 0} where
  -- The thread has a state, and the next turn is planned no later than it is due.
  abbrev pub IsCovered : Pass W → Text → Type 0
  IsCovered p id = (ps : PollState) × (lookup p.states id ≡ some ps) × (p.next_wake ≤ ps.next_poll)

  -- The thread has a state, and the timer fires no later than it is due, or 100 ms after the end
  -- of the polls where that is later.
  abbrev pub IsWokenFor : Time → Pass W × Time → Text → Type 0
  IsWokenFor ended (p, wake) id =
      (ps : PollState) × (lookup p.states id ≡ some ps)
      × ((wake ≤ ps.next_poll) ⊎ (wake ≤ ended + 100_000_000))

  woken :
      (ended : Time) (p : Pass W) (id : Text)
      → IsCovered p id
      → IsWokenFor ended (p, ended + sleep_time ended p.next_wake) id
  woken ended p id (ps, found, h) = (ps, found, sleep_time-bound ended p.next_wake ps.next_poll h)

  -- What a visit of a thread does to the states and the time.
  abbrev IsVisit : Text → Pass W → Pass W → Type 0
  IsVisit id p p' =
      (ps : PollState) × (p'.states ≡ insert p.states id ps)
      × (p'.next_wake ≡ earlier ps.next_poll p.next_wake)

  IsVisit-IsCovered : (id : Text) (p p' : Pass W) → IsVisit id p p' → IsCovered p' id
  IsVisit-IsCovered id p p' (ps, s, w) = (
    ps,
    rw (s, lookup-insert p.states id id ps, text_eq_refl id) refl,
    rw w (earlier-le ps.next_poll p.next_wake).0,
  )

  IsVisit-keeps : (id j : Text) (p p' : Pass W) → IsVisit id p p' → IsCovered p j → IsCovered p' j
  IsVisit-keeps id j p p' (ps, s, w) (qs, found, h) = elim (Bool-cases (text_eq id j)) [
    | inl e ↦ (
      ps,
      rw (s, lookup-insert p.states id j ps, e) refl,
      rw w (earlier-le ps.next_poll p.next_wake).0,
    )
    | inr e ↦ (
      qs,
      rw (s, lookup-insert p.states id j ps, e) found,
      (let l : earlier ps.next_poll p.next_wake ≤ p.next_wake =
            (earlier-le ps.next_poll p.next_wake).1 in
          rw w (omega arith)),
    )
  ]

  module _ (poll : Text → W → (ℤ × Option TeamsError) × W) (now : Time) where
    visit-IsVisit :
        (id : Text) (p : Pass W) → is_nil id ≡ false → IsVisit id p (visit poll now id p)
    unfolding visit
    visit-IsVisit id p e =
        let ps = state_of now p.states id in
        elim (Bool-cases (ltb now ps.next_poll)) [
          | inl l ↦ rw (e, l) (ps, refl, refl)
          | inr l ↦ rw (e, l) (polled poll now ps (poll id p.world).0, refl, refl)
        ]

    visit_nil : (id : Text) (p : Pass W) → is_nil id ≡ true → visit poll now id p ≡ p
    unfolding visit
    visit_nil id p e = rw e refl

    visit-keeps : (id j : Text) (p : Pass W) → IsCovered p j → IsCovered (visit poll now id p) j
    visit-keeps id j p h = elim (Bool-cases (is_nil id)) [
      | inl e ↦ rw (visit_nil id p e) h
      | inr e ↦ IsVisit-keeps id j p (visit poll now id p) (visit-IsVisit id p e) h
    ]

    visit_wake : (id : Text) (p : Pass W) → (visit poll now id p).next_wake ≤ p.next_wake
    visit_wake id p = elim (Bool-cases (is_nil id)) [
      | inl e ↦ rw (visit_nil id p e) (omega arith)
      | inr e ↦
          let (ps, s, w) = visit-IsVisit id p e in rw w (earlier-le ps.next_poll p.next_wake).1
    ]

    pass_from-keeps :
        (ids : List Text) (j : Text) (p : Pass W)
        → IsCovered p j
        → IsCovered (pass_from poll now ids p) j
    unfolding pass_from
    pass_from-keeps [] j p h = h
    pass_from-keeps (id ∷ ids) j p h =
        pass_from-keeps ids j (visit poll now id p) (visit-keeps id j p h)

    pass_from_wake :
        (ids : List Text) (p : Pass W) → (pass_from poll now ids p).next_wake ≤ p.next_wake
    unfolding pass_from
    pass_from_wake [] p = omega arith
    pass_from_wake (id ∷ ids) p =
        omega (arith, pass_from_wake ids (visit poll now id p), visit_wake id p)

    pass_from-IsCovered :
        (ids : List Text) (p : Pass W)
        → All (λ id. (is_nil id ≡ true) ⊎ IsCovered (pass_from poll now ids p) id) ids
    unfolding pass_from
    pass_from-IsCovered [] p = tt
    pass_from-IsCovered (id ∷ ids) p = (
      elim (Bool-cases (is_nil id)) [
        | inl e ↦ inl e
        | inr e ↦ inr (
            pass_from-keeps ids id (visit poll now id p)
              (IsVisit-IsCovered id p (visit poll now id p) (visit-IsVisit id p e)))
      ],
      pass_from-IsCovered ids (visit poll now id p),
    )

    pass_due-IsCovered :
        (ids : List Text) (states : List (Text × PollState)) (world : W)
        → All (λ id. (is_nil id ≡ true) ⊎ IsCovered (pass_due poll now ids states world) id) ids
          × ((pass_due poll now ids states world).next_wake ≤ now + 5_000_000_000)
    unfolding pass_due
    pass_due-IsCovered ids states world = (pass_from-IsCovered ids _, pass_from_wake ids _)

    All-IsWokenFor :
        (ended : Time) (p : Pass W) (ids : List Text)
        → All (λ id. (is_nil id ≡ true) ⊎ IsCovered p id) ids
        → All
            (λ id.
              (is_nil id ≡ true) ⊎ IsWokenFor ended (p, ended + sleep_time ended p.next_wake) id)
            ids
    All-IsWokenFor ended p [] h = tt
    All-IsWokenFor ended p (id ∷ ids) (inl e, h) = (inl e, All-IsWokenFor ended p ids h)
    All-IsWokenFor ended p (id ∷ ids) (inr c, h) =
        (inr (woken ended p id c), All-IsWokenFor ended p ids h)

    -- Whatever the polls answer and however long they take, after a turn every thread of the table
    -- with an identifier has a state, and the timer fires no later than any of these is due and no
    -- later than five seconds after the turn's start, or else 100 ms after the end of its polls.
    pub poll_due_threads-IsCovered :
        (clock : W → Time) (ids : List Text) (states : List (Text × PollState)) (world : W)
        → let turn = poll_due_threads poll clock now ids states world in
          let ended = clock turn.0.world in
          All (λ id. (is_nil id ≡ true) ⊎ IsWokenFor ended turn id) ids
          × ((turn.1 ≤ now + 5_000_000_000) ⊎ (turn.1 ≤ ended + 100_000_000))
    unfolding poll_due_threads
    poll_due_threads-IsCovered clock ids states world =
        let p = pass_due poll now ids states world in
        let (covered, soon) = pass_due-IsCovered ids states world in
        (
          All-IsWokenFor (clock p.world) p ids covered,
          sleep_time-bound (clock p.world) p.next_wake (now + 5_000_000_000) soon,
        )
