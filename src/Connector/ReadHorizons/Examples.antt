-- ===== src/Connector/ReadHorizons/Examples.antt =====
-- A poll of read positions (pkg/connector/handleteams.go) at a concrete answer.
use matrix_teams.Prelude.{true, none, some, List, [], ◌∷◌, pos, codes}
use matrix_teams.Connector.Events.{Env, ThreadState, World}
use matrix_teams.Connector.ReadHorizons.{ConsumptionHorizon}
use matrix_teams.Connector.ReadHorizons.Reported.{Reported}

abbrev env : Env
env = record {
  login_id = codes "me";
  teams_user_id = codes "8:me";
  visited = [];
  clock = 5;
  is_stored = λ id. true;
  has_reactions = λ id. true;
  last_sent = λ user ts. some none;
  can_read_horizon = λ thread user. true;
  can_store_horizon = λ thread user ts. true;
}

abbrev th : ThreadState
th = record {
  thread_id = codes "19:t@thread.v2";
  conversation = codes "c";
  is_one_to_one = true;
  name = [];
  last_sequence_id = [];
  last_message_ts = pos 0;
}

abbrev world : World
world = record {
  tracker = record {
    self_messages = [];
    unread_seen = [];
    unread_sent = [];
    receipt_poll = [];
    reaction_seen = [];
  };
  profiles = [];
  cursors = [];
  horizons = λ t u. none;
  queue = [];
}

abbrev answer : List ConsumptionHorizon
answer =
    record { id = codes "8:me"; consumption_horizon = codes "1;1;0" }
    ∷ record { id = codes "8:ann"; consumption_horizon = codes "5;17;0" }
    ∷ []
