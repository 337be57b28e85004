-- ===== src/Connector/Convert/Examples.antt =====
-- A message with two files, of which one cannot be downloaded.
use matrix_teams.Prelude.{
  ◌≡◌, ◌≢◌, refl, ◌+◌, true, none, some, List, [], ◌∷◌, length, pos, Text, codes, if◌then◌else◌,
  text_eq, trim_space, All, join, has_prefix,
}
use matrix_teams.Model.Message.{RemoteMessage}
use matrix_teams.Model.Attachments.{TeamsAttachment}
use matrix_teams.Connector.Convert.Rendering.{render_inbound_message_with_gifs}
use matrix_teams.Connector.Convert.Media.{Matrix, reupload_inbound_attachments, has_drive_item}
use matrix_teams.Connector.Convert.{convert_teams_message, convert_teams_message_legacy, text}
use matrix_teams.Connector.Convert.Shown.{IsShown}
use matrix_teams.Connector.Convert.Parts.{count_media, linked, convert_teams_message-keeps}

abbrev matrix : Matrix
matrix = record {
  has_graph_token = true;
  download = λ id.
      if text_eq id (codes "1")
      then some (record { content_type = codes "image/png"; bytes = 7 ∷ [] })
      else none;
  upload = λ bytes name mime. some (record { mxc = codes "mxc://h/1"; file_url = none });
  sniff = λ bytes. codes "text/plain";
  type_by_extension = λ ext. [];
}

abbrev attachment : Text → TeamsAttachment
attachment id = record {
  filename = codes "f.png";
  drive_item_id = id;
  share_url = codes "https://s";
  download_url = [];
  file_type = [];
}

abbrev msg : Text → RemoteMessage
msg formatted = record {
  message_id = codes "1";
  client_message_id = [];
  sequence_id = codes "1";
  sender_id = codes "8:ann";
  sender_name = codes "Ann";
  im_display_name = [];
  token_display_name = [];
  timestamp = pos 5;
  body = [];
  formatted_body = formatted;
  gifs = [];
  properties_files = [];
  reactions = [];
}

abbrev attachments : List TeamsAttachment
attachments = attachment (codes "1") ∷ attachment (codes "2") ∷ []

test_one_uploaded : count_media (convert_teams_message matrix (msg []) attachments) ≡ 1
unfolding convert_teams_message count_media has_drive_item reupload_inbound_attachments
    render_inbound_message_with_gifs trim_space text_eq join has_prefix
test_one_uploaded = refl

-- An empty body stays empty beside HTML: the text of the HTML is not taken.
test_no_fallback :
    convert_teams_message_legacy (msg (codes "<p>hi</p>")) []
    ≡ text
        (record { body = []; formatted_body = codes "<p>hi</p>" })
        (some (codes "8:ann", codes "Ann"))
      ∷ []
unfolding convert_teams_message_legacy render_inbound_message_with_gifs trim_space text_eq
test_no_fallback = refl

convert_teams_message-keeps_example :
    (convert_teams_message matrix (msg []) attachments ≢ [])
    × (count_media (convert_teams_message matrix (msg []) attachments)
          + length (linked matrix attachments)
        ≡ length attachments)
    × All (IsShown (convert_teams_message matrix (msg []) attachments)) (linked matrix attachments)
convert_teams_message-keeps_example = convert_teams_message-keeps matrix (msg []) attachments
