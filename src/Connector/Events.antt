-- ===== src/Connector/Events.antt =====
-- The events that the sync loop of pkg/connector/handleteams.go hands to the bridge framework, what
-- it reads from outside, and the state that it changes. The database's tables are lists, and its
-- operations do not fail, except those on read positions. The time of a message, also of the reactions
-- to it, counts nanoseconds since the Unix epoch; the times that the source makes with time.UnixMilli,
-- of one reaction and of a receipt, are the milliseconds of which it makes them.
use matrix_teams.Prelude.{Bool, Option, List, [], ◌∷◌, ◌++◌, ℤ, Text, trim_space}
use matrix_teams.Model.Message.{RemoteMessage}
use matrix_teams.Connector.Tracker.{Tracker, Time}

pub record EventSender : Type 0 where
  pub sender : Text
  pub is_from_me : Bool
  pub sender_login : Text

pub record BackfillReaction : Type 0 where
  pub sender : EventSender
  pub emoji_id : Text
  pub emoji : Text
  pub timestamp : Option ℤ

-- The portal of a thread: `portalKey` trims the thread's identifier.
pub record PortalKey : Type 0 where
  pub id : Text
  pub receiver : Text

pub record MessageEvent : Type 0 where
  pub portal : PortalKey
  pub sender : EventSender
  pub timestamp : ℤ
  pub stream_order : ℤ
  pub content : RemoteMessage
  pub id : Text
  pub transaction_id : Text

pub data RemoteEvent : Type 0 where
  message : MessageEvent → RemoteEvent
  reaction_sync : PortalKey → ℤ → Text → List (Text × List BackfillReaction) → RemoteEvent
  receipt : PortalKey → Text → ℤ → Option Text → RemoteEvent
  bad_credentials : RemoteEvent

-- What a poll reads and does not change: the login, the metadata's user, the order in which the
-- inverse of the reaction table was built, the clock, and the framework's message database: whether
-- a message is stored, whether one has stored reactions, and the last message of the user up to a
-- time, `none` where the query fails; and whether the table of read positions can be read and written.
pub record Env : Type 0 where
  pub login_id : Text
  pub teams_user_id : Text
  pub visited : List (Text × Text)
  pub clock : Time
  pub is_stored : Text → Bool
  pub has_reactions : Text → Bool
  pub last_sent : Text → ℤ → Option (Option Text)
  pub can_read_horizon : Text → Text → Bool
  pub can_store_horizon : Text → Text → ℤ → Bool

-- teamsdb's row of a thread
pub record ThreadState : Type 0 where
  pub thread_id : Text
  pub conversation : Text
  pub is_one_to_one : Bool
  pub name : Text
  pub last_sequence_id : Text
  pub last_message_ts : ℤ

-- What a poll changes: the tracker, the profile table, the cursors of the thread table, the table of
-- read horizons, and the queue of the framework.
pub record World : Type 0 where
  pub tracker : Tracker
  pub profiles : List (Text × Text)
  pub cursors : List (Text × (Text × ℤ))
  pub horizons : Text → Text → Option ℤ
  pub queue : List RemoteEvent

abbrev pub portal_key : Env → Text → PortalKey
portal_key env thread_id = record { id = trim_space thread_id; receiver = env.login_id }

abbrev pub enqueue : RemoteEvent → World → World
enqueue e w = record w { queue = w.queue ++ (e ∷ []) }
