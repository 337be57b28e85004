-- ===== src/Connector/Discovery.antt =====
-- `refreshThreads` of pkg/connector/handleteams.go, and Upsert of pkg/teamsdb/thread_state.go: the
-- conversations of the API become rows of the thread table and rooms.
pub mod Cursors
mod Examples
use matrix_teams.Prelude.{
  Bool, true, false, ◌||◌, Option, none, some, List, [], ◌∷◌, ◌++◌, if◌then◌else◌, is_nil,
  trim_space, Text, lookup, insert, pos,
}
use matrix_teams.Model.Conversation.{RemoteConversation, Thread, normalize_for_self}
use matrix_teams.Connector.Events.{Env, PortalKey, ThreadState, portal_key}

-- The event of a room that is made or brought up to date, less its time.
pub record ChatResync : Type 0 where
  pub portal : PortalKey
  pub name : Text
  pub is_dm : Bool

-- The rows of the login by thread, and the queue.
pub record Rooms : Type 0 where
  pub rows : List (Text × ThreadState)
  pub queue : List ChatResync

-- What the row of a thread is after the INSERT ... ON CONFLICT.
pub merge_row : ThreadState → Option ThreadState → ThreadState
merge_row st none = st
merge_row st (some old) = record old {
  conversation = st.conversation;
  is_one_to_one = st.is_one_to_one;
  name = st.name;
}

-- Upsert; its error is dropped by the caller.
pub upsert : ThreadState → List (Text × ThreadState) → List (Text × ThreadState)
unfolding merge_row
upsert state rows =
    let st = record state {
      thread_id = trim_space state.thread_id;
      conversation = trim_space state.conversation;
    } in
    if is_nil st.thread_id || is_nil st.conversation
    then rows
    else insert rows st.thread_id (merge_row st (lookup rows st.thread_id))

new_row : Thread → ThreadState
new_row t = record {
  thread_id = t.id;
  conversation = t.conversation_id;
  is_one_to_one = t.is_one_to_one;
  name = t.room_name;
  last_sequence_id = [];
  last_message_ts = pos 0;
}

-- The body of the loop, on a conversation that is normalised.
pub add_thread : Env → Option Thread → Rooms → Rooms
add_thread env none r = r
add_thread env (some t) r =
    if is_nil (trim_space t.id) || is_nil (trim_space t.conversation_id) then r else record {
      rows = upsert (new_row t) r.rows;
      queue =
          r.queue
          ++ (record { portal = portal_key env t.id; name = t.room_name; is_dm = t.is_one_to_one }
              ∷ []);
    }

-- refreshThreads, with a valid token, on what ListConversations returned
pub refresh_threads : Env → List RemoteConversation → Rooms → Rooms
unfolding add_thread
refresh_threads env [] r = r
refresh_threads env (c ∷ cs) r =
    refresh_threads env cs (add_thread env (normalize_for_self c env.teams_user_id) r)
