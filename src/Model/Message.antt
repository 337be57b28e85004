-- ===== src/Model/Message.antt =====
-- Messages and reactions as the client hands them to the connector: internal/teams/model/message.go
-- and gif.go. A time is in milliseconds since 1970, and 0 is an absent reaction time.
use matrix_teams.Prelude.{ℤ, List, Text, trim_space}

pub record TeamsGif : Type 0 where
  pub title : Text
  pub url : Text

pub record MessageReactionUser : Type 0 where
  pub mri : Text
  pub time_ms : ℤ

pub record MessageReaction : Type 0 where
  pub emotion_key : Text
  pub users : List MessageReactionUser

pub record RemoteMessage : Type 0 where
  pub message_id : Text
  pub client_message_id : Text
  pub sequence_id : Text
  pub sender_id : Text
  pub sender_name : Text
  pub im_display_name : Text
  pub token_display_name : Text
  pub timestamp : ℤ
  pub body : Text
  pub formatted_body : Text
  pub gifs : List TeamsGif
  pub properties_files : Text
  pub reactions : List MessageReaction

-- NormalizeTeamsUserID
abbrev pub normalize_teams_user_id : Text → Text
normalize_teams_user_id value = trim_space value
