-- ===== src/Connector/ReactionSync/Queue.antt =====
-- What `queueReactionSyncForMessage` (pkg/connector/handleteams.go) queues.
use matrix_teams.Prelude.{◌≡◌, refl, [], ◌∷◌, ◌++◌, ◌⊎◌, inl, inr, Text, is_nil, Bool-cases}
use matrix_teams.Model.Message.{RemoteMessage}
use matrix_teams.Connector.Events.{RemoteEvent, reaction_sync, Env, ThreadState, World, portal_key}
use matrix_teams.Connector.ReactionSync.{
  queue_reaction_sync, should_send_empty_reaction_sync, build_reaction_sync_data, resolve_target,
  sync_message_id,
}

-- The event that a call may queue.
abbrev pub sync_event : Env → ThreadState → RemoteMessage → Text → RemoteEvent
sync_event env th msg message_id =
    reaction_sync (portal_key env th.thread_id) msg.timestamp
      (resolve_target env (sync_message_id message_id msg) msg)
      (build_reaction_sync_data env msg.reactions)

-- A call queues its event or nothing.
pub queue_reaction_sync-queue :
    (env : Env) (th : ThreadState) (msg : RemoteMessage) (id : Text) (w : World)
    → ((queue_reaction_sync env th msg id w).queue ≡ w.queue)
      ⊎ ((queue_reaction_sync env th msg id w).queue ≡ w.queue ++ (sync_event env th msg id ∷ []))
unfolding queue_reaction_sync should_send_empty_reaction_sync
queue_reaction_sync-queue env th msg id w = elim (Bool-cases (is_nil (sync_message_id id msg))) [
  | inl e ↦ rw e (inl refl)
  | inr e ↦ elim (Bool-cases (is_nil (build_reaction_sync_data env msg.reactions))) [
    | inr e' ↦ rw (e, e') (inr refl)
    | inl e' ↦
        elim (Bool-cases
          (should_send_empty_reaction_sync env (resolve_target env (sync_message_id id msg) msg)
            w).0) [ inl s ↦ rw (e, e', s) (inr refl) | inr s ↦ rw (e, e', s) (inl refl) ]
  ]
]
