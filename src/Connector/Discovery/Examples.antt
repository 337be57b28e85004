-- ===== src/Connector/Discovery/Examples.antt =====
-- A discovery that lists one known thread under a new topic.
use matrix_teams.Prelude.{refl, true, false, none, some, [], ◌∷◌, pos, codes, lookup, text_eq}
use matrix_teams.Model.Conversation.{RemoteConversation}
use matrix_teams.Connector.Events.{Env, ThreadState}
use matrix_teams.Connector.Discovery.{Rooms, refresh_threads}
use matrix_teams.Connector.Discovery.Cursors.{HasCursor, refresh_threads-HasCursor}

abbrev env : Env
env = record {
  login_id = codes "me";
  teams_user_id = codes "8:me";
  visited = [];
  clock = 5;
  is_stored = λ id. true;
  has_reactions = λ id. true;
  last_sent = λ user ts. some none;
  can_read_horizon = λ thread user. true;
  can_store_horizon = λ thread user ts. true;
}

abbrev known : ThreadState
known = record {
  thread_id = codes "19:t@thread.v2";
  conversation = codes "c";
  is_one_to_one = false;
  name = codes "Old";
  last_sequence_id = codes "41";
  last_message_ts = pos 7;
}

abbrev rooms : Rooms
rooms = record { rows = (codes "19:t@thread.v2", known) ∷ []; queue = [] }

abbrev listed : RemoteConversation
listed = record {
  id = codes "c";
  thread_properties = record {
    original_thread_id = codes "19:t@thread.v2";
    product_thread_type = [];
    created_at = [];
    is_creator = false;
    topic = codes "New";
    thread_topic = [];
    title = [];
    display_name = [];
    name = [];
  };
  topic = [];
  title = [];
  display_name = [];
  name = [];
  properties = record { topic = []; thread_topic = []; title = []; display_name = []; name = [] };
  members = [];
  participants = [];
  consumers = [];
}

refresh_threads-HasCursor_example :
    HasCursor
      (refresh_threads env (listed ∷ []) rooms).rows
      (codes "19:t@thread.v2")
      (codes "41")
      (pos 7)
unfolding lookup text_eq
refresh_threads-HasCursor_example =
    refresh_threads-HasCursor env (listed ∷ []) rooms (codes "19:t@thread.v2") (codes "41") (pos 7)
      (known, refl, refl, refl)
