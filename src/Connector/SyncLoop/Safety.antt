-- ===== src/Connector/SyncLoop/Safety.antt =====
-- What holds of the sync loop (startSyncLoop and stopSyncLoop of pkg/connector/handleteams.go) over
-- every order of the steps.
use matrix_teams.Prelude.{
  ℕ, ◌≤◌, ◌≡◌, ◌≢◌, refl, true, false, Option, none, some, ◌⊎◌, inl, inr, Option-cases, Bool-cases,
  is_some, arith,
}
use matrix_teams.Connector.SyncLoop.{
  absent, created, returned, running, SyncState, idle, start_sync_loop, stop_sync_loop, begin_loop,
  end_loop, Step, Reaches, start, release, cancel, begin, finish, here, after, release_loop,
  cancel_loop, take_cancel, close_channel,
}

-- A loop that was started has been taken by a stop, or is the one that the next stop takes.
abbrev IsOwned : SyncState → ℕ → Type 0
IsOwned s i = (s.phase i ≡ absent) ⊎ (s.is_taken i ≡ true) ⊎ (s.sync_cancel ≡ some i)

IsOwned-step :
    {P : SyncState → Type 0} {s t : SyncState} → Step P s t → (i : ℕ) → IsOwned s i → IsOwned t i
unfolding start_sync_loop release_loop begin_loop end_loop cancel_loop close_channel
IsOwned-step {s = s} start i h = ground arith
IsOwned-step {s = s} (release p) i h = elim (Option-cases s.sync_cancel) [
  | inl e ↦ rw (e, take_cancel) (ground arith)
  | inr (k, e) ↦ rw (e, take_cancel) (ground arith)
]
IsOwned-step {s = s} (cancel j e) i h = h
IsOwned-step {s = s} (begin j e) i h = ground arith
IsOwned-step {s = s} (finish j none e) i h = ground arith
IsOwned-step {s = s} (finish j (some c) e) i h = ground arith

IsOwned-Reaches :
    {P : SyncState → Type 0} {s t : SyncState} → Reaches P s t → (i : ℕ) → IsOwned s i → IsOwned t i
IsOwned-Reaches here i h = h
IsOwned-Reaches (after step rest) i h = IsOwned-Reaches rest i (IsOwned-step step i h)

-- A loop that has begun or is about to, and whose context is not cancelled.
abbrev pub IsLive : SyncState → ℕ → Type 0
IsLive s i = (s.phase i ≢ absent) × (s.is_canceled i ≡ false)

-- Whatever the order of starts, halves of stops and steps of goroutines: where no stop is between its
-- halves, that is, every context that a stop took is cancelled, two loops that were started and not
-- told to stop are one loop, and it is the one that the next stop cancels.
pub one_live_loop :
    (P : SyncState → Type 0) {s : SyncState}
    → Reaches P idle s
    → ((k : ℕ) → s.is_taken k ≡ true → s.is_canceled k ≡ true)
    → (i j : ℕ) → IsLive s i
    → IsLive s j
    → (i ≡ j) × (s.sync_cancel ≡ some i)
one_live_loop P r done i j (a, b) (c, d) =
    ground (arith, IsOwned-Reaches r i (inl refl), IsOwned-Reaches r j (inl refl), done i, done j)

-- A stop waits until no goroutine is before its `defer` statement.
abbrev pub IsQuiet : SyncState → Type 0
IsQuiet s = (i : ℕ) → s.phase i ≢ created

-- What goroutines may count on when every stop is quiet.
record IsOrderly (s : SyncState) : Type 0 where
  unbroken : s.crashed ≡ false
  fresh : (i : ℕ) → s.next ≤ i → s.phase i ≡ absent
  owns : (i : ℕ) → s.phase i ≡ created → (s.sync_cancel ≡ some i) × (s.sync_done ≡ some i)
  closes : (i : ℕ) (c : Option ℕ) → s.phase i ≡ running c → c ≡ some i
  open_until_end : (i : ℕ) → (s.phase i ≡ returned) ⊎ (s.is_closed i ≡ false)

IsOrderly-start : (s : SyncState) → IsOrderly s → IsOrderly (start_sync_loop s)
unfolding start_sync_loop
IsOrderly-start s v = elim (Bool-cases (is_some s.sync_cancel)) [
  | inr e ↦ rw e (record {
    unbroken = v.unbroken;
    fresh = λ i h. ground (arith, v.fresh i);
    owns = λ i h. ground (arith, v.owns i);
    closes = λ i c h. ground (arith, v.closes i c);
    open_until_end = λ i. ground (arith, v.open_until_end i, v.fresh i);
  })
  | inl e ↦ rw e v
]

IsOrderly-release : (s : SyncState) → IsQuiet s → IsOrderly s → IsOrderly (release_loop s).1
unfolding release_loop
IsOrderly-release s quiet v = record {
  unbroken = v.unbroken;
  fresh = v.fresh;
  owns = λ i h. absurd (quiet i h);
  closes = v.closes;
  open_until_end = v.open_until_end;
}

IsOrderly-cancel : (s : SyncState) (c : Option ℕ) → IsOrderly s → IsOrderly (cancel_loop c s)
unfolding cancel_loop
IsOrderly-cancel s none v = v
IsOrderly-cancel s (some j) v = record {
  unbroken = v.unbroken;
  fresh = v.fresh;
  owns = v.owns;
  closes = v.closes;
  open_until_end = v.open_until_end;
}

IsOrderly-begin :
    (s : SyncState) (j : ℕ) → s.phase j ≡ created → IsOrderly s → IsOrderly (begin_loop j s)
unfolding begin_loop
IsOrderly-begin s j e v = record {
  unbroken = v.unbroken;
  fresh = λ i h. ground (arith, v.fresh i);
  owns = λ i h. ground (arith, v.owns i);
  closes = λ i c h. ground (arith, v.closes i c, v.owns j);
  open_until_end = λ i. ground (arith, v.open_until_end i);
}

IsOrderly-finish :
    (s : SyncState) (j : ℕ) (c : Option ℕ)
    → s.phase j ≡ running c
    → IsOrderly s
    → IsOrderly (end_loop j c s)
unfolding end_loop close_channel
IsOrderly-finish s j none e v = let h : none ≡ some j = v.closes j none e in absurd (cc)
IsOrderly-finish s j (some c) e v =
    let c-eq : c ≡ j = cc (v.closes j (some c) e) in
    let still_open : s.is_closed c ≡ false = ground (arith, v.open_until_end j) in
    rw still_open (record {
      unbroken = v.unbroken;
      fresh = λ i h. ground (arith, v.fresh i);
      owns = λ i h. ground (arith, v.owns i);
      closes = λ i d h. ground (arith, v.closes i d);
      open_until_end = λ i. ground (arith, v.open_until_end i);
    })

IsOrderly-Reaches : {s t : SyncState} → Reaches IsQuiet s t → IsOrderly s → IsOrderly t
IsOrderly-Reaches here v = v
IsOrderly-Reaches (after {s = s} start rest) v = IsOrderly-Reaches rest (IsOrderly-start s v)
IsOrderly-Reaches (after {s = s} (release q) rest) v =
    IsOrderly-Reaches rest (IsOrderly-release s q v)
IsOrderly-Reaches (after {s = s} (cancel j e) rest) v =
    IsOrderly-Reaches rest (IsOrderly-cancel s (some j) v)
IsOrderly-Reaches (after {s = s} (begin j e) rest) v =
    IsOrderly-Reaches rest (IsOrderly-begin s j e v)
IsOrderly-Reaches (after {s = s} (finish j c e) rest) v =
    IsOrderly-Reaches rest (IsOrderly-finish s j c e v)

idle-IsOrderly : IsOrderly idle
idle-IsOrderly = record {
  unbroken = refl;
  fresh = λ i h. refl;
  owns = λ i h. cc;
  closes = λ i c h. cc;
  open_until_end = λ i. inr refl;
}

-- Where no stop comes before the first statement of a goroutine that was started, no close panics,
-- and a loop that has not ended closes its own channel, which is open until then.
pub orderly_stop :
    {s : SyncState}
    → Reaches IsQuiet idle s
    → (s.crashed ≡ false)
      × ((i : ℕ) (c : Option ℕ) → s.phase i ≡ running c → (c ≡ some i) × (s.is_closed i ≡ false))
orderly_stop r =
    let v = IsOrderly-Reaches r idle-IsOrderly in
    (v.unbroken, λ i c h. (v.closes i c h, ground (arith, v.open_until_end i)))

-- A goroutine that was started, and whose first statement comes right behind a stop, panics at its
-- end: its `defer` has read a nil channel, since the stop has cleared the field, and closes it.
pub hasty_stop :
    (s : SyncState) (i : ℕ)
    → s.phase i ≡ created
    → let begun = begin_loop i (stop_sync_loop s).1 in
      (begun.phase i ≡ running none) × ((end_loop i none begun).crashed ≡ true)
unfolding stop_sync_loop release_loop cancel_loop begin_loop end_loop close_channel
hasty_stop s i h = elim (Option-cases s.sync_cancel) [
  | inl e ↦ rw e (ground arith, refl)
  | inr (k, e) ↦ rw e (ground arith, refl)
]
