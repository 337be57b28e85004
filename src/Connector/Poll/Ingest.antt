-- ===== src/Connector/Poll/Ingest.antt =====
-- Which messages a poll (pkg/connector/handleteams.go) hands on, and as what.
use matrix_teams.Prelude.{
  ◌+◌, ◌*◌, ◌≡◌, ◌∙◌, sym, ap, Bool, not, ◌&&◌, List, [], ◌∷◌, ◌++◌, append-nil, append_assoc, map,
  arith, if◌then◌else◌, is_nil, length, select, trim_space, Bool-cases, inl, inr,
}
use matrix_teams.Model.Message.{RemoteMessage, normalize_teams_user_id}
use matrix_teams.Connector.Events.{MessageEvent, Env, ThreadState, World}
use matrix_teams.Connector.Poll.{
  Loop, is_seen, is_user_sender, event_of, poll_message, poll_messages, ingest_world, prepare,
  settle, advance,
}
use matrix_teams.Connector.Poll.Sync.{
  messages_of, messages_of-message, messages_of-queue_reaction_sync,
}

-- A message that the poll hands on: it has an identifier, lies behind the cursor, and is a user's.
unfoldable pub is_fresh : ThreadState → RemoteMessage → Bool
is_fresh th msg =
    not (is_nil (trim_space msg.message_id))
    && (not (is_seen (trim_space th.last_sequence_id) msg)
        && is_user_sender th (normalize_teams_user_id msg.sender_id))

module _ (env : Env) (th : ThreadState) where
  queue-prepare : (msg : RemoteMessage) (w : World) → (prepare env msg w).0.queue ≡ w.queue
  unfolding prepare
  queue-prepare msg w = ground arith

  queue-settle :
      (msg : RemoteMessage) (echo : Bool) (w : World) → (settle env th msg echo w).queue ≡ w.queue
  unfolding settle
  queue-settle msg echo w = ground arith

  messages_of-ingest_world :
      (msg : RemoteMessage) (w : World)
      → messages_of (ingest_world env th msg w).queue
        ≡ messages_of w.queue ++ (event_of env th msg ∷ [])
  unfolding ingest_world
  messages_of-ingest_world msg w =
      let w' = (prepare env msg w).0 in
      ap messages_of (queue-settle msg _ _)
      ∙ messages_of-queue_reaction_sync env th _ _ _
      ∙ messages_of-message w'.queue (event_of env th msg)
      ∙ ap (λ q. messages_of q ++ (event_of env th msg ∷ [])) (queue-prepare msg w)

  fresh_events : RemoteMessage → List MessageEvent
  fresh_events msg = if is_fresh th msg then event_of env th msg ∷ [] else []

  messages_of-poll_message :
      (msg : RemoteMessage) (l : Loop)
      → messages_of (poll_message env th msg l).world.queue
        ≡ messages_of l.world.queue ++ fresh_events msg
  unfolding poll_message fresh_events is_fresh advance
  messages_of-poll_message msg l = elim (Bool-cases (is_nil (trim_space msg.message_id))) [
    | inl e ↦ rw e (sym (append-nil _))
    | inr e ↦ elim (Bool-cases (is_seen (trim_space th.last_sequence_id) msg)) [
      | inl s ↦
          rw (e, s) (messages_of-queue_reaction_sync env th msg _ l.world ∙ sym (append-nil _))
      | inr s ↦ elim (Bool-cases (is_user_sender th (normalize_teams_user_id msg.sender_id))) [
        | inl u ↦ rw (e, s, u) (messages_of-ingest_world msg l.world)
        | inr u ↦ rw (e, s, u) (sym (append-nil _))
      ]
    ]
  ]

  ingested-poll_message :
      (msg : RemoteMessage) (l : Loop)
      → (poll_message env th msg l).ingested ≡ l.ingested + 2 * length (fresh_events msg)
  unfolding poll_message fresh_events is_fresh advance
  ingested-poll_message msg l = ground arith

  fresh_events-select :
      (msg : RemoteMessage) (msgs : List RemoteMessage)
      → map (event_of env th) (select (is_fresh th) (msg ∷ msgs))
        ≡ fresh_events msg ++ map (event_of env th) (select (is_fresh th) msgs)
  unfolding fresh_events
  fresh_events-select msg msgs = ground arith

  length-fresh_events :
      (msg : RemoteMessage) (msgs : List RemoteMessage)
      → length (select (is_fresh th) (msg ∷ msgs))
        ≡ length (fresh_events msg) + length (select (is_fresh th) msgs)
  unfolding fresh_events
  length-fresh_events msg msgs = ground arith

  -- The loop of a poll hands on exactly the messages that have an identifier, lie behind the cursor
  -- and come from a user, each once and in the order of the response, and counts two for each.
  pub poll_messages-events :
      (msgs : List RemoteMessage) (l : Loop)
      → (messages_of (poll_messages env th msgs l).world.queue
          ≡ messages_of l.world.queue ++ map (event_of env th) (select (is_fresh th) msgs))
        × ((poll_messages env th msgs l).ingested
            ≡ l.ingested + 2 * length (select (is_fresh th) msgs))
  unfolding poll_messages
  poll_messages-events [] l = (sym (append-nil _), omega arith)
  poll_messages-events (msg ∷ msgs) l =
      let (events, count) = poll_messages-events msgs (poll_message env th msg l) in
      (
        events
            ∙ ap (λ q. q ++ map (event_of env th) (select (is_fresh th) msgs))
                (messages_of-poll_message msg l)
            ∙ append_assoc (messages_of l.world.queue) (fresh_events msg)
                (map (event_of env th) (select (is_fresh th) msgs))
            ∙ ap (λ q. messages_of l.world.queue ++ q) (sym (fresh_events-select msg msgs)),
        omega (arith, count, ingested-poll_message msg l, length-fresh_events msg msgs),
      )
