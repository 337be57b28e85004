-- ===== src/Connector/ReadHorizons/Reported.antt =====
-- What a poll of the read positions (pkg/connector/handleteams.go) may do, and when.
use matrix_teams.Prelude.{
  ◌≡◌, ◌≢◌, true, false, ◌&&◌, ◌⊎◌, Option, none, some, List, [], ◌∷◌, ◌++◌, ℤ, pos, ◌<ℤ◌, Text,
  is_nil, text_eq, trim_space,
}
use matrix_teams.Model.Message.{normalize_teams_user_id}
use matrix_teams.Model.Horizon.{parse_latest_read_ts}
use matrix_teams.Connector.Tracker.{Time, should_poll_receipts}
use matrix_teams.Connector.ReactionSync.{self_id}
use matrix_teams.Connector.Events.{receipt, Env, ThreadState, World, portal_key}
use matrix_teams.Connector.ReadHorizons.{ConsumptionHorizon, only_remote}

-- The stored position of a user is before `ts`, or there is none.
abbrev pub IsBefore : Option ℤ → ℤ → Type 0
IsBefore none ts = Unit
IsBefore (some last) ts = last <ℤ ts

-- The table holds `ts` for the user in the thread, and what it held for every other user and thread.
abbrev pub IsStored : Text → Text → ℤ → World → World → Type 0
IsStored thread_id user ts w w' =
    (w'.horizons thread_id user ≡ some ts)
    × ((t u : Text)
        → (text_eq t thread_id && text_eq u user) ≡ false
        → w'.horizons t u ≡ w.horizons t u)

-- The queue has one receipt more, for the user's position and the last message sent up to then.
abbrev pub IsQueued : Env → Text → Text → ℤ → World → World → Type 0
IsQueued env thread_id user ts w w' =
    (target : Option Text) × (env.last_sent (self_id env) ts ≡ some target)
    × (w'.queue ≡ w.queue ++ (receipt (portal_key env thread_id) (trim_space user) ts target ∷ []))

-- The entry is the only one of another user in the answer, and `ts` the position that it reads.
abbrev pub IsRead : Env → Text → Option (List ConsumptionHorizon) → ConsumptionHorizon → ℤ → Type 0
IsRead env thread_id none e ts = ⊥
IsRead env thread_id (some entries) e ts =
    (only_remote (self_id env) thread_id none entries ≡ some e)
    × (parse_latest_read_ts e.consumption_horizon ≡ some ts)

-- The answer has nothing new: whatever position it has is not positive or not past the stored one, or
-- one of the queries before the receipt fails.
abbrev pub HasNoNews : Env → ThreadState → Option (List ConsumptionHorizon) → World → Type 0
HasNoNews env th answer w =
    (e : ConsumptionHorizon) (ts : ℤ)
    → IsRead env (trim_space th.thread_id) answer e ts
    → pos 0 <ℤ ts
    → env.can_read_horizon (trim_space th.thread_id) (normalize_teams_user_id e.id) ≡ true
    → IsBefore (w.horizons (trim_space th.thread_id) (normalize_teams_user_id e.id)) ts
    → (target : Option Text) → env.last_sent (self_id env) ts ≢ some target

-- Why a call does nothing: the thread has no identifier, it is not due, the login has no user, or
-- there is nothing new.
abbrev pub IsIdle : Env → ThreadState → Time → Option (List ConsumptionHorizon) → World → Type 0
IsIdle env th now answer w =
    (is_nil (trim_space th.thread_id) ≡ true)
    ⊎ ((should_poll_receipts (trim_space th.thread_id) now w.tracker).0 ≡ false)
    ⊎ (is_nil (self_id env) ≡ true)
    ⊎ HasNoNews env th answer w

-- What a call does to the queue and the table: nothing, for a reason, or one receipt for the position
-- of the answer's only other user, which is positive and past the stored one and becomes it, unless
-- the table cannot be written.
pub data Reported (env : Env) (th : ThreadState) (now : Time)
    (answer : Option (List ConsumptionHorizon)) (w : World) : World → Type 0 where
  unchanged :
      {w' : World}
      → IsIdle env th now answer w
      → w'.queue ≡ w.queue
      → w'.horizons ≡ w.horizons
      → Reported env th now answer w w'
  advanced :
      {w' : World} (e : ConsumptionHorizon) (ts : ℤ)
      → IsRead env (trim_space th.thread_id) answer e ts
      → pos 0 <ℤ ts
      → IsBefore (w.horizons (trim_space th.thread_id) (normalize_teams_user_id e.id)) ts
      → IsQueued env (trim_space th.thread_id) (normalize_teams_user_id e.id) ts w w'
      → (IsStored (trim_space th.thread_id) (normalize_teams_user_id e.id) ts w w'
          ⊎ ((env.can_store_horizon (trim_space th.thread_id) (normalize_teams_user_id e.id) ts
                ≡ false)
              × (w'.horizons ≡ w.horizons)))
      → Reported env th now answer w w'
