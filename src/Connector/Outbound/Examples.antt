-- ===== src/Connector/Outbound/Examples.antt =====
-- A user with a text, an unsupported message, a reaction and a read receipt
-- (pkg/connector/handlematrix.go).
use matrix_teams.Prelude.{
  ℕ, ◌+◌, ◌≤◌, ◌≡◌, refl, true, false, none, some, Option, List, [], ◌∷◌, inl, inr, arith,
  if◌then◌else◌, is_nil, length, pos, Text, codes, text_eq, trim_space, one_of, lookup, insert,
}
use matrix_teams.Client.Access.{Access}
use matrix_teams.Client.Sending.{Wire, Outcome}
use matrix_teams.Bridge.Files.{MsgType, MessageEventContent}
use matrix_teams.Connector.Tracker.Unread.{owed}
use matrix_teams.Connector.Outbound.{Session, Services}
use matrix_teams.Connector.Outbound.Messages.{handle_matrix_message}
use matrix_teams.Connector.Outbound.Messages.Settled.{Settled, handle_matrix_message-Settled}
use matrix_teams.Connector.Outbound.Reactions.{
  PreResponse, pre_handle_matrix_reaction, handle_matrix_reaction,
}
use matrix_teams.Connector.Outbound.Reactions.Phases.{handle_matrix_reaction-pre}
use matrix_teams.Connector.Outbound.Presence.{handle_matrix_read_receipt}
use matrix_teams.Connector.Outbound.Presence.Reading.{handle_matrix_read_receipt-owed}

-- The world counts the requests.
abbrev access : Access
access = record {
  has_http = true;
  token = codes "t";
  messages_url = [];
  send_messages_url = [];
  consumption_horizons_url = [];
}

abbrev services : Services ℕ Text
services = record {
  is_logged_in = λ w. true;
  ensure_valid_skype_token = λ w. (none, w);
  consumer = λ w. some access;
  wire = record {
    execute = λ call w. (record { status = some 201; error = none }, w + 1);
    path_escape = λ s. s;
    now = λ w. codes "now";
  };
  generate_client_message_id = λ w. (codes "17", w);
  teams_user_id = λ w. codes "8:ann";
  clock = λ w. 10 + w;
  unix_milli = λ w. 5;
  graph_access_token = λ w. inl (codes "none");
  graph_client = λ token. none;
  download = λ url encrypted w. (inl (codes "gone"), w);
  file_id = λ s. none;
  parse_url = λ s. none;
  marshal = λ d. [];
}

abbrev session : Session ℕ
session = record {
  tracker = record {
    self_messages = [];
    unread_seen = (codes "19:a", true) ∷ [];
    unread_sent = [];
    receipt_poll = [];
    reaction_seen = [];
  };
  pending = [];
  world = 0;
}

abbrev content : MsgType → MessageEventContent
content m = record {
  msg_type = m;
  body = codes "hi";
  filename = [];
  url = [];
  encrypted_url = none;
  info_mime_type = none;
  get_file_name = [];
  get_caption = [];
}

abbrev portal : Text
portal = codes "19:a"

test_sent :
    (handle_matrix_message services portal (some (content MsgType.text)) session).1.world ≡ 1
unfolding handle_matrix_message trim_space matrix_teams.Client.Sending.send_message_with_id
    matrix_teams.Client.Content.format_html_content matrix_teams.Prelude.replace_all
    matrix_teams.Go.Html.escape_string
test_sent = refl

-- A message of an unsupported type stays pending, though the handler answers with an error.
test_unsupported :
    (handle_matrix_message services portal (some (content MsgType.other)) session).1.pending
    ≡ codes "17" ∷ []
unfolding handle_matrix_message trim_space
test_unsupported = refl

test_named : is_nil (trim_space (codes "17")) ≡ false
unfolding trim_space
test_named = refl

handle_matrix_message-Settled_example :
    Settled services
      (codes "16")
      9
      session
      (handle_matrix_message services portal (some (content MsgType.text)) session)
handle_matrix_message-Settled_example =
    handle_matrix_message-Settled services (codes "16") 9 (omega arith) (λ w. test_named) portal
      (content MsgType.text) session refl tt

abbrev pre : PreResponse
pre = record { sender_id = codes "8:ann"; emoji_id = codes "fire"; emoji = 0x1f525 ∷ [] }

test_pre :
    pre_handle_matrix_reaction services (λ s. s) (some (0x1f525 ∷ [])) session ≡ (inr pre, session)
unfolding pre_handle_matrix_reaction trim_space
    matrix_teams.Connector.Reactions.map_emoji_to_emotion_key lookup
    matrix_teams.Connector.Reactions.emoji_to_emotion_key matrix_teams.Connector.Reactions.build
    insert text_eq
test_pre = refl

handle_matrix_reaction-pre_example :
    handle_matrix_reaction services
      (λ s. s)
      portal
      (codes "1")
      (some (0x1f525 ∷ []))
      (some pre)
      session
    ≡ handle_matrix_reaction services (λ s. s) portal (codes "1") (some (0x1f525 ∷ [])) none session
handle_matrix_reaction-pre_example =
    handle_matrix_reaction-pre services (λ s. s) portal (codes "1") (0x1f525 ∷ []) pre session
      session session test_pre

test_portal : is_nil (trim_space portal) ≡ false
unfolding trim_space
test_portal = refl

handle_matrix_read_receipt-owed_example :
    owed (handle_matrix_read_receipt services portal session).1.tracker portal
    ≡ (if text_eq (trim_space portal) portal then false else owed session.tracker portal)
handle_matrix_read_receipt-owed_example =
    handle_matrix_read_receipt-owed services portal portal session refl refl test_portal
