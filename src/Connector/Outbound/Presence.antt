-- ===== src/Connector/Outbound/Presence.antt =====
-- The handlers of typing and of read receipts of pkg/connector/handlematrix.go.
pub mod Reading
use matrix_teams.Prelude.{
  ℕ, Bool, true, false, not, ◌||◌, ◌⊎◌, inl, inr, Option, none, some, List, [], ◌∷◌, if◌then◌else◌,
  is_nil, pos, Text, trim_space,
}
use matrix_teams.Client.Access.{Access}
use matrix_teams.Client.Sending.{
  SendError, add_reaction, remove_reaction, send_typing_indicator, set_consumption_horizon,
}
use matrix_teams.Model.Horizon.{consumption_horizon_now}
use matrix_teams.Connector.Ids.{normalize_teams_reaction_message_id}
use matrix_teams.Connector.Reactions.{map_emoji_to_emotion_key}
use matrix_teams.Connector.Tracker.{should_send_receipt}
use matrix_teams.Connector.Outbound.{
  Session, HandlerError, Services, lift, error_of, token, sending, missing_reaction_content,
  missing_teams_user_id, unsupported_reaction_emoji, target_message_not_found,
  missing_teams_message_id,
}
use matrix_teams.Connector.Outbound.Guards.{signed_in, with_consumer, requested}

module _ {W E : Type 0} (sv : Services W E) where
  type_in : Text → Access → Session W → (HandlerError E ⊎ Unit {0}) × Session W
  unfolding requested
  type_in thread_id consumer s = requested sv tt (
      lift
        (λ w. error_of (
          send_typing_indicator sv.wire consumer sv.generate_client_message_id thread_id
            (sv.teams_user_id w) w))
        s)

  handle_typing : Text → Bool → Session W → (HandlerError E ⊎ Unit {0}) × Session W
  unfolding with_consumer type_in
  handle_typing portal_id is_typing s =
      if not is_typing
      then (inr tt, s)
      else if is_nil (trim_space portal_id)
      then (inl HandlerError.missing_thread_id, s)
      else with_consumer sv (type_in (trim_space portal_id)) (sv.consumer s.world) s

  -- HandleMatrixTyping
  pub handle_matrix_typing : Text → Bool → Session W → (HandlerError E ⊎ Unit {0}) × Session W
  unfolding signed_in handle_typing
  handle_matrix_typing portal_id is_typing s = signed_in sv (handle_typing portal_id is_typing) s

  send_horizon : Text → Access → Session W → (HandlerError E ⊎ Unit {0}) × Session W
  unfolding requested
  send_horizon thread_id consumer s = requested sv tt (
      lift
        (λ w. error_of (
          set_consumption_horizon sv.wire consumer thread_id
            (consumption_horizon_now (sv.unix_milli w)) w))
        s)

  on_receipt_due : Text → Bool × Session W → (HandlerError E ⊎ Unit {0}) × Session W
  unfolding with_consumer send_horizon
  on_receipt_due thread_id (false, s) = (inr tt, s)
  on_receipt_due thread_id (true, s) =
      with_consumer sv (send_horizon thread_id) (sv.consumer s.world) s

  abbrev due : Text → Session W → Bool × Session W
  due thread_id s =
      let (send, tracker) = should_send_receipt thread_id s.tracker in
      (send, record s { tracker = tracker })

  handle_read : Text → Session W → (HandlerError E ⊎ Unit {0}) × Session W
  unfolding on_receipt_due
  handle_read portal_id s =
      if is_nil (trim_space portal_id)
      then (inl HandlerError.missing_thread_id, s)
      else on_receipt_due (trim_space portal_id) (due (trim_space portal_id) s)

  -- HandleMatrixReadReceipt
  pub handle_matrix_read_receipt : Text → Session W → (HandlerError E ⊎ Unit {0}) × Session W
  unfolding signed_in handle_read
  handle_matrix_read_receipt portal_id s = signed_in sv (handle_read portal_id) s
