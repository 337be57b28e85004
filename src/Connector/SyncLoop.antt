-- ===== src/Connector/SyncLoop.antt =====
-- The start and the stop of the sync loop: `startSyncLoop` and `stopSyncLoop` of
-- pkg/connector/handleteams.go, and the goroutine between them. A goroutine, its context and its
-- channel go by one number. The body of the loop is in Connector.Schedule; here it takes some time.
pub mod Safety
mod Examples
use matrix_teams.Prelude.{
  ℕ, ◌+◌, ◌≡◌, Bool, true, false, not, Option, none, some, ◌==◌, if◌then◌else◌, is_some,
}

-- A goroutine: before its `defer` statement, in syncLoop with the channel that the deferred call
-- closes, or at its end.
pub data Phase : Type 0 where
  absent created returned : Phase
  running : Option ℕ → Phase

-- The fields under syncMu, and what they point to: the contexts that a stop took to cancel them, those
-- that are cancelled, and the channels that are closed. `crashed` is the panic of a close.
pub record SyncState : Type 0 where
  pub sync_cancel : Option ℕ
  pub sync_done : Option ℕ
  pub next : ℕ
  pub phase : ℕ → Phase
  pub is_taken : ℕ → Bool
  pub is_canceled : ℕ → Bool
  pub is_closed : ℕ → Bool
  pub crashed : Bool

abbrev pub idle : SyncState
idle = record {
  sync_cancel = none;
  sync_done = none;
  next = 0;
  phase = λ i. absent;
  is_taken = λ i. false;
  is_canceled = λ i. false;
  is_closed = λ i. false;
  crashed = false;
}

abbrev pub update {ℓ} : {A : Type ℓ} → (ℕ → A) → ℕ → A → ℕ → A
update f i a j = if j == i then a else f j

-- startSyncLoop
unfoldable pub start_sync_loop : SyncState → SyncState
start_sync_loop s = if is_some s.sync_cancel then s else record s {
  sync_cancel = some s.next;
  sync_done = some s.next;
  next = s.next + 1;
  phase = update s.phase s.next created;
}

take_cancel : Option ℕ → (ℕ → Bool) → ℕ → Bool
take_cancel none taken = taken
take_cancel (some i) taken = update taken i true

-- The first half of stopSyncLoop, under the lock: its answer is the context that it takes to cancel,
-- and the channel for which it waits, up to its timeout.
unfoldable pub release_loop : SyncState → (Option ℕ × Option ℕ) × SyncState
unfolding take_cancel
release_loop s = (
  (s.sync_cancel, s.sync_done),
  record s {
    sync_cancel = none;
    sync_done = none;
    is_taken = take_cancel s.sync_cancel s.is_taken;
  },
)

-- The second half, behind the lock: cancel() of the context that was taken, if there was one.
unfoldable pub cancel_loop : Option ℕ → SyncState → SyncState
cancel_loop none s = s
cancel_loop (some i) s = record s { is_canceled = update s.is_canceled i true }

-- stopSyncLoop where nothing comes between its halves
unfoldable pub stop_sync_loop : SyncState → Option ℕ × SyncState
unfolding release_loop cancel_loop
stop_sync_loop s =
    let ((cancel, done), released) = release_loop s in (done, cancel_loop cancel released)

-- The goroutine's first statement: `defer close(c.syncDone)` reads the field now.
unfoldable pub begin_loop : ℕ → SyncState → SyncState
begin_loop i s = record s { phase = update s.phase i (running s.sync_done) }

-- close(c): a nil or a closed channel is a panic.
close_channel : Option ℕ → SyncState → SyncState
close_channel none s = record s { crashed = true }
close_channel (some c) s =
    if s.is_closed c
    then record s { crashed = true }
    else record s { is_closed = update s.is_closed c true }

-- The goroutine's end, which makes the deferred call.
unfoldable pub end_loop : ℕ → Option ℕ → SyncState → SyncState
unfolding close_channel
end_loop i c s =
    let closed = close_channel c s in record closed { phase = update closed.phase i returned }

-- The steps of the bridge and of its goroutines, in any order: the two halves of a stop are two steps,
-- and the first may need a condition.
pub data Step (CanStop : SyncState → Type 0) : SyncState → SyncState → Type 0 where
  start : {s : SyncState} → Step CanStop s (start_sync_loop s)
  release : {s : SyncState} → CanStop s → Step CanStop s (release_loop s).1
  cancel : {s : SyncState} (i : ℕ) → s.is_taken i ≡ true → Step CanStop s (cancel_loop (some i) s)
  begin : {s : SyncState} (i : ℕ) → s.phase i ≡ created → Step CanStop s (begin_loop i s)
  finish :
      {s : SyncState} (i : ℕ) (c : Option ℕ)
      → s.phase i ≡ running c
      → Step CanStop s (end_loop i c s)

pub data Reaches (CanStop : SyncState → Type 0) : SyncState → SyncState → Type 0 where
  here : {s : SyncState} → Reaches CanStop s s
  after : {s t u : SyncState} → Step CanStop s t → Reaches CanStop t u → Reaches CanStop s u
