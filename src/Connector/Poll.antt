-- ===== src/Connector/Poll.antt =====
-- `pollThread` of pkg/connector/handleteams.go: the messages of one thread, from the response of the
-- API to the queue of the framework.
pub mod Sync
pub mod Ingest
pub mod Cursor
pub mod Again
mod Examples
use matrix_teams.Prelude.{
  ℕ, ◌+◌, Bool, true, false, not, ◌&&◌, ◌||◌, Option, none, some, List, [], ◌∷◌, ◌++◌,
  if◌then◌else◌, Ordering, ℤ, pos, ltb_ℤ, Text, text_eq, is_nil, is_some, lookup, trim_space,
  equal_fold, insert,
}
use matrix_teams.Go.Time.{unix_milli}
use matrix_teams.Client.Errors.{TeamsError}
use matrix_teams.Model.Sequence.{compare_sequence_id}
use matrix_teams.Model.Message.{RemoteMessage, normalize_teams_user_id}
use matrix_teams.Connector.Tracker.{Time, consume_self_message, mark_unread, mark_reaction_seen}
use matrix_teams.Connector.Ids.{is_likely_thread_id, effective_remote_message_id}
use matrix_teams.Connector.ReactionSync.{self_id, queue_reaction_sync}
use matrix_teams.Connector.ReadHorizons.{ConsumptionHorizon, poll_consumption_horizons}
use matrix_teams.Connector.Events.{
  EventSender, MessageEvent, RemoteEvent, message, bad_credentials, Env, ThreadState, World,
  portal_key, enqueue,
}

-- a ≤ b and a > b, by CompareSequenceID
abbrev pub seq_le : Text → Text → Bool
seq_le a b = elim (compare_sequence_id a b) [ Ordering.gt ↦ false | _ ↦ true ]

-- Whether the poll has seen the message: its sequence is not behind the cursor.
pub is_seen : Text → RemoteMessage → Bool
is_seen last_seq msg = not (is_nil last_seq) && seq_le (trim_space msg.sequence_id) last_seq

pub is_user_sender : ThreadState → Text → Bool
is_user_sender th sender_id = not (
    is_nil sender_id
    || equal_fold sender_id (trim_space th.thread_id)
    || is_likely_thread_id sender_id)

pub first_named : Text → Text → Text → Text
first_named a b c = if not (is_nil a) then a else if not (is_nil b) then b else c

pub display_name : RemoteMessage → Text
unfolding first_named
display_name msg =
    first_named (trim_space msg.im_display_name) (trim_space msg.token_display_name)
      (normalize_teams_user_id msg.sender_id)

pub is_self : Env → Text → Bool
is_self env sender_id =
    not (is_nil sender_id) && not (is_nil (self_id env)) && text_eq sender_id (self_id env)

pub event_sender : Env → Text → EventSender
unfolding is_self
event_sender env id = record {
  sender = trim_space id;
  is_from_me = is_self env id;
  sender_login = if is_self env id then env.login_id else [];
}

pub event_message_id : RemoteMessage → Text
event_message_id msg =
    let id = effective_remote_message_id msg in if is_nil id then trim_space msg.message_id else id

-- The event for a message.
pub event_of : Env → ThreadState → RemoteMessage → MessageEvent
unfolding event_sender event_message_id display_name unix_milli
event_of env th msg = record {
  portal = portal_key env th.thread_id;
  sender = event_sender env (normalize_teams_user_id msg.sender_id);
  timestamp = msg.timestamp;
  stream_order = unix_milli msg.timestamp;
  content = record msg { sender_name = display_name msg };
  id = event_message_id msg;
  transaction_id = trim_space msg.client_message_id;
}

-- The variables of the loop over the messages.
pub record Loop : Type 0 where
  pub max_seq : Text
  pub max_ts : ℤ
  pub ingested : ℕ
  pub world : World

advance : RemoteMessage → Loop → Loop
unfolding unix_milli
advance msg l =
    let seq = trim_space msg.sequence_id in
    let ts = unix_milli msg.timestamp in
    record l {
      max_seq = if is_nil l.max_seq || not (seq_le seq l.max_seq) then seq else l.max_seq;
      max_ts = if ltb_ℤ l.max_ts ts then ts else l.max_ts;
    }

-- The body behind the filters, up to the event: profile, reactions seen, echo. The second part is
-- `isSelfEcho`.
prepare : Env → RemoteMessage → World → World × Bool
unfolding is_self display_name
prepare env msg w =
    let sender_id = normalize_teams_user_id msg.sender_id in
    let effective = effective_remote_message_id msg in
    let w1 = record w { profiles = insert w.profiles sender_id (display_name msg) } in
    let w2 =
      if not (is_nil effective) && not (is_nil msg.reactions)
      then record w1 { tracker = (mark_reaction_seen effective true w1.tracker).1 }
      else w1 in
    let (known, tracker') =
      consume_self_message (trim_space msg.client_message_id) env.clock w2.tracker in
    if is_self env sender_id then (record w2 { tracker = tracker' }, known) else (w2, false)

-- The body behind the event: the unread mark.
settle : Env → ThreadState → RemoteMessage → Bool → World → World
unfolding is_self
settle env th msg is_self_echo w =
    if is_self_echo
    then w
    else if not (is_self env (normalize_teams_user_id msg.sender_id))
        && not (is_nil (trim_space th.thread_id))
    then record w { tracker = mark_unread th.thread_id w.tracker }
    else w

ingest_world : Env → ThreadState → RemoteMessage → World → World
ingest_world env th msg w =
    let (w', is_self_echo) = prepare env msg w in
    let named = record msg { sender_name = display_name msg } in
    settle env th msg is_self_echo (
      queue_reaction_sync env th named (event_message_id msg)
        (enqueue (message (event_of env th msg)) w'))

-- One turn of the loop.
pub poll_message : Env → ThreadState → RemoteMessage → Loop → Loop
unfolding advance ingest_world
poll_message env th msg l =
    if is_nil (trim_space msg.message_id)
    then l
    else if is_seen (trim_space th.last_sequence_id) msg
    then record l {
      world = queue_reaction_sync env th msg (effective_remote_message_id msg) l.world;
    }
    else (let l' = advance msg l in
        if is_user_sender th (normalize_teams_user_id msg.sender_id)
        then record l' { ingested = l'.ingested + 2; world = ingest_world env th msg l'.world }
        else l')

pub poll_messages : Env → ThreadState → List RemoteMessage → Loop → Loop
poll_messages env th [] l = l
poll_messages env th (msg ∷ msgs) l = poll_messages env th msgs (poll_message env th msg l)

-- What ListMessages returns.
pub data Listed : Type 0 where
  listing : List RemoteMessage → Listed
  listing_failed : TeamsError → Listed

-- The UPDATE of UpdateCursor: of the row of the thread, if there is one.
pub store_cursor : Text → Text × ℤ → List (Text × (Text × ℤ)) → List (Text × (Text × ℤ))
store_cursor thread_id cursor rows =
    if is_nil thread_id || not (is_some (lookup rows thread_id))
    then rows
    else insert rows thread_id cursor

-- UpdateCursor, in the table and in the row that the caller holds, if the loop moved the cursor.
pub update_cursor : ThreadState → Loop → ThreadState × World
unfolding store_cursor
update_cursor th l = if is_nil l.max_seq then (th, l.world) else (
  record th { last_sequence_id = l.max_seq; last_message_ts = l.max_ts },
  record l.world {
    cursors = store_cursor (trim_space th.thread_id) (l.max_seq, l.max_ts) l.world.cursors;
  },
)

abbrev pub start_loop : World → Loop
start_loop w = record { max_seq = []; max_ts = pos 0; ingested = 0; world = w }

poll_listed :
    Env
    → ThreadState
    → Time
    → Listed
    → Option (List ConsumptionHorizon)
    → World
    → (ℕ × Option TeamsError) × (ThreadState × World)
unfolding update_cursor
poll_listed env th now (listing_failed e) answer w = ((0, some e), (th, w))
poll_listed env th now (listing msgs) answer w =
    let l = poll_messages env th msgs (start_loop w) in
    let (th', w') = update_cursor th l in
    ((l.ingested, none), (th', poll_consumption_horizons env th' now answer w'))

-- pollThread on a thread that is not nil: `token_error` is the error of ensureValidSkypeToken, which
-- is reported to the framework. The result is the count and the error, the row, and the state.
pub poll_thread :
    Env
    → ThreadState
    → Time
    → Option TeamsError
    → Listed
    → Option (List ConsumptionHorizon)
    → World
    → (ℕ × Option TeamsError) × (ThreadState × World)
unfolding poll_listed
poll_thread env th now (some e) listed answer w = ((0, some e), (th, enqueue bad_credentials w))
poll_thread env th now none listed answer w = poll_listed env th now listed answer w
