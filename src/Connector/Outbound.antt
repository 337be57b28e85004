-- ===== src/Connector/Outbound.antt =====
-- The handlers of pkg/connector/handlematrix.go: what a Matrix user does goes to Teams. The session
-- holds the trackers, the transactions that the framework keeps as pending, and the world outside.
pub mod Messages
pub mod Guards
pub mod Reactions
pub mod Presence
mod Examples
use matrix_teams.Prelude.{
  ℕ, Bool, true, false, not, ◌&&◌, ◌⊎◌, inl, inr, Option, none, some, List, [], ◌∷◌, ◌++◌,
  if◌then◌else◌, is_nil, ltb, length, ℤ, pos, Text, text_eq, trim_space,
}
use matrix_teams.Client.Access.{Access}
use matrix_teams.Client.Sending.{
  Wire, Sent, SendError, Outcome, send_message_with_id, send_gif_with_id, add_reaction,
  remove_reaction, set_consumption_horizon, send_typing_indicator, send_attachment_message_with_id,
}
use matrix_teams.Bridge.Files.{MessageEventContent, FileError, max_attachment_bytes}
use matrix_teams.Bridge.Descriptor.{TeamsFileDescriptor}
use matrix_teams.Bridge.Attachments.{GraphApi, AttachmentError}
use matrix_teams.Connector.Tracker.{Tracker, Time}
use matrix_teams.Connector.Gif.{ParsedUrl}

pub record Session (W : Type 0) : Type 0 where
  pub tracker : Tracker
  pub pending : List Text
  pub world : W

-- The errors of sendAttachmentMessageWithClientMessageID and of the handlers.
pub data SendFileError (E : Type 0) : Type 0 where
  not_logged_in missing_thread_id missing_filename missing_content exceeds_max_size :
      SendFileError E
  missing_consumer missing_http_client : SendFileError E
  outside : E → SendFileError E
  attachment : AttachmentError (SendError E) → SendFileError E

pub data HandlerError (E : Type 0) : Type 0 where
  not_logged_in unsupported_message_type missing_thread_id missing_consumer : HandlerError E
  missing_reaction_content missing_teams_user_id unsupported_reaction_emoji : HandlerError E
  target_message_not_found missing_teams_message_id : HandlerError E
  token : E → HandlerError E
  sending : SendError E → HandlerError E
  file : FileError (SendFileError E) → HandlerError E

-- What the handlers call: the login and its token, the client for the consumer API with its requests,
-- the identifiers, the clock in nanoseconds, Graph, downloads from Matrix, and the packages.
pub record Services (W E : Type 0) : Type 1 where
  pub is_logged_in : W → Bool
  pub ensure_valid_skype_token : W → Option E × W
  pub consumer : W → Option Access
  pub wire : Wire W E
  pub generate_client_message_id : W → Text × W
  pub teams_user_id : W → Text
  pub clock : W → Time
  pub unix_milli : W → ℕ
  pub graph_access_token : W → E ⊎ Text
  pub graph_client : Text → Option (GraphApi W (SendError E))
  pub download : Text → Bool → W → (E ⊎ List ℕ) × W
  pub file_id : Text → Option Text
  pub parse_url : Text → Option ParsedUrl
  pub marshal : TeamsFileDescriptor → Text

-- A call that only touches the world.
abbrev pub lift : {W A : Type 0} → (W → A × W) → Session W → A × Session W
lift f s = let (a, w) = f s.world in (a, record s { world = w })

abbrev pub error_of : {W E : Type 0} → (ℕ × Option (SendError E)) × W → Option (SendError E) × W
error_of ((status, err), w) = (err, w)
