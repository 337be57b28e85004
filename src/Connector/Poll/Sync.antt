-- ===== src/Connector/Poll/Sync.antt =====
-- What a poll (pkg/connector/handleteams.go) queues besides messages leaves the messages alone.
use matrix_teams.Prelude.{◌≡◌, refl, ◌∙◌, ap, List, [], ◌∷◌, ◌++◌, append-nil, inl, inr, Text}
use matrix_teams.Model.Message.{RemoteMessage}
use matrix_teams.Connector.ReactionSync.{queue_reaction_sync}
use matrix_teams.Connector.ReactionSync.Queue.{queue_reaction_sync-queue, sync_event}
use matrix_teams.Connector.Events.{
  MessageEvent, RemoteEvent, message, reaction_sync, receipt, bad_credentials, Env, ThreadState,
  World,
}

-- The message events of a queue.
unfoldable pub messages_of : List RemoteEvent → List MessageEvent
messages_of [] = []
messages_of (message e ∷ es) = e ∷ messages_of es
messages_of (reaction_sync p t m us ∷ es) = messages_of es
messages_of (receipt p u t m ∷ es) = messages_of es
messages_of (bad_credentials ∷ es) = messages_of es

pub messages_of-append :
    (es fs : List RemoteEvent) → messages_of (es ++ fs) ≡ messages_of es ++ messages_of fs
unfolding messages_of
messages_of-append [] fs = refl
messages_of-append (message e ∷ es) fs = ap (λ r. e ∷ r) (messages_of-append es fs)
messages_of-append (reaction_sync p t m us ∷ es) fs = messages_of-append es fs
messages_of-append (receipt p u t m ∷ es) fs = messages_of-append es fs
messages_of-append (bad_credentials ∷ es) fs = messages_of-append es fs

pub messages_of-message :
    (es : List RemoteEvent) (e : MessageEvent)
    → messages_of (es ++ (message e ∷ [])) ≡ messages_of es ++ (e ∷ [])
messages_of-message es e = messages_of-append es (message e ∷ []) ∙ (unfold messages_of in refl)

pub messages_of-queue_reaction_sync :
    (env : Env) (th : ThreadState) (msg : RemoteMessage) (id : Text) (w : World)
    → messages_of (queue_reaction_sync env th msg id w).queue ≡ messages_of w.queue
messages_of-queue_reaction_sync env th msg id w = elim (queue_reaction_sync-queue env th msg id w) [
  | inl e ↦ ap messages_of e
  | inr e ↦
      ap messages_of e
      ∙ messages_of-append w.queue (sync_event env th msg id ∷ [])
      ∙ (unfold messages_of in append-nil (messages_of w.queue))
]
