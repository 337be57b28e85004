-- ===== src/Connector/Poll/Examples.antt =====
-- Polls of pkg/connector/handleteams.go at a concrete listing.
use matrix_teams.Prelude.{
  ◌+◌, ◌≡◌, refl, true, false, none, some, List, [], ◌∷◌, ◌++◌, pos, inr, Text, codes, trim_space,
  equal_fold, select, map, length, All,
}
use matrix_teams.Go.Strconv.{parse_uint}
use matrix_teams.Model.Sequence.{compare_sequence_id}
use matrix_teams.Connector.Ids.{is_likely_thread_id}
use matrix_teams.Model.Message.{RemoteMessage}
use matrix_teams.Connector.Events.{Env, ThreadState, World}
use matrix_teams.Connector.Poll.{listing, poll_thread, event_of, is_seen, is_user_sender}
use matrix_teams.Connector.Poll.Sync.{messages_of}
use matrix_teams.Connector.Poll.Ingest.{is_fresh}
use matrix_teams.Connector.Poll.Cursor.{IsNumbered, IsCursor}
use matrix_teams.Connector.Poll.Again.{poll_thread-events, poll_again}

abbrev text : Text → Text → Text → RemoteMessage
text id sequence sender = record {
  message_id = id;
  client_message_id = [];
  sequence_id = sequence;
  sender_id = sender;
  sender_name = [];
  im_display_name = codes "Ann";
  token_display_name = [];
  timestamp = pos 1_700_000_000_000_000_000;
  body = codes "hello";
  formatted_body = [];
  gifs = [];
  properties_files = [];
  reactions = [];
}

abbrev msgs : List RemoteMessage
msgs =
    text (codes "m1") (codes "9") (codes "8:ann")
    ∷ text (codes "m2") (codes "10") (codes "8:me")
    ∷ text (codes "m3") (codes "11") (codes "19:x@thread.v2")
    ∷ text (codes "m0") (codes "7") (codes "8:ann")
    ∷ []

abbrev th : ThreadState
th = record {
  thread_id = codes "19:t@thread.v2";
  conversation = codes "c";
  is_one_to_one = true;
  name = [];
  last_sequence_id = codes "8";
  last_message_ts = pos 0;
}

abbrev env : Env
env = record {
  login_id = codes "me";
  teams_user_id = codes "8:me";
  visited = [];
  clock = 5;
  is_stored = λ id. false;
  has_reactions = λ id. false;
  last_sent = λ user ts. some none;
  can_read_horizon = λ thread user. true;
  can_store_horizon = λ thread user ts. true;
}

abbrev world : World
world = record {
  tracker = record {
    self_messages = [];
    unread_seen = [];
    unread_sent = [];
    receipt_poll = [];
    reaction_seen = [];
  };
  profiles = [];
  cursors = [];
  horizons = λ t u. none;
  queue = [];
}

-- Two of the four are handed on: m3 is the thread's, m0 is old.
test_fresh : length (select (is_fresh th) msgs) ≡ 2
unfolding is_fresh is_seen is_user_sender equal_fold is_likely_thread_id compare_sequence_id
    trim_space
test_fresh = refl

poll_thread-events_example :
    (messages_of (poll_thread env th 1 none (listing msgs) none world).1.1.queue
      ≡ messages_of world.queue ++ map (event_of env th) (select (is_fresh th) msgs))
    × ((poll_thread env th 1 none (listing msgs) none world).0
        ≡ (length (select (is_fresh th) msgs) + length (select (is_fresh th) msgs), none))
poll_thread-events_example = poll_thread-events env th 1 msgs none world

test-IsNumbered : All IsNumbered msgs
unfolding trim_space parse_uint
test-IsNumbered = ((9, refl), ((10, refl), ((11, refl), ((7, refl), tt))))

test-IsCursor : IsCursor (trim_space th.last_sequence_id)
unfolding trim_space parse_uint
test-IsCursor = inr (8, refl)

poll_again_example :
    (let first = poll_thread env th 1 none (listing msgs) none world in
      let second = poll_thread env first.1.0 2 none (listing msgs) none first.1.1 in
      (messages_of second.1.1.queue ≡ messages_of first.1.1.queue) × (second.0 ≡ (0, none)))
poll_again_example = poll_again env th 1 2 msgs none none world test-IsNumbered test-IsCursor
