-- ===== src/Connector/Outbound/Reactions.antt =====
-- The handlers of reactions of pkg/connector/handlematrix.go.
pub mod Phases
use matrix_teams.Prelude.{
  ℕ, Bool, true, false, not, ◌||◌, ◌⊎◌, inl, inr, Option, none, some, List, [], ◌∷◌, if◌then◌else◌,
  is_nil, pos, Text, trim_space,
}
use matrix_teams.Client.Access.{Access}
use matrix_teams.Client.Sending.{
  SendError, add_reaction, remove_reaction, send_typing_indicator, set_consumption_horizon,
}
use matrix_teams.Model.Horizon.{consumption_horizon_now}
use matrix_teams.Connector.Ids.{normalize_teams_reaction_message_id}
use matrix_teams.Connector.Reactions.{map_emoji_to_emotion_key}
use matrix_teams.Connector.Tracker.{should_send_receipt}
use matrix_teams.Connector.Outbound.{
  Session, HandlerError, Services, lift, error_of, token, sending, missing_reaction_content,
  missing_teams_user_id, unsupported_reaction_emoji, target_message_not_found,
  missing_teams_message_id,
}
use matrix_teams.Connector.Outbound.Guards.{signed_in, with_consumer, requested}

-- MatrixReactionPreResponse, and what is stored of a reaction.
pub record PreResponse : Type 0 where
  pub sender_id : Text
  pub emoji_id : Text
  pub emoji : Text

pub record StoredReaction : Type 0 where
  pub emoji_id : Text
  pub emoji : Text

-- The reaction that is removed, with the message that it is on.
pub record TargetReaction : Type 0 where
  pub message_id : Text
  pub emoji_id : Text
  pub emoji : Text

module _ {W E : Type 0} (sv : Services W E) (fully_qualify : Text → Text) where
  pre_response : Text → Text → Option Text → HandlerError E ⊎ PreResponse
  pre_response user emoji none = inl unsupported_reaction_emoji
  pre_response user emoji (some key) =
      inr (record { sender_id = trim_space user; emoji_id = key; emoji = emoji })

  pre_handle : Option Text → Session W → (HandlerError E ⊎ PreResponse) × Session W
  unfolding pre_response
  pre_handle none s = (inl missing_reaction_content, s)
  pre_handle (some key) s =
      if is_nil (trim_space (sv.teams_user_id s.world)) then (inl missing_teams_user_id, s) else (
        pre_response (sv.teams_user_id s.world) (trim_space key)
            (map_emoji_to_emotion_key fully_qualify (trim_space key)),
        s,
      )

  -- PreHandleMatrixReaction: the key that the content relates by, if there is a content.
  unfoldable pub pre_handle_matrix_reaction :
      Option Text → Session W → (HandlerError E ⊎ PreResponse) × Session W
  unfolding signed_in pre_handle
  pre_handle_matrix_reaction content s = signed_in sv (pre_handle content) s

  -- The emotion key and the emoji: those of the first phase where it gives them.
  given : Option PreResponse → Text → Text × Text
  given none emoji = ([], emoji)
  given (some pre) emoji =
      if is_nil pre.emoji_id
      then ([], emoji)
      else (pre.emoji_id, if is_nil pre.emoji then emoji else pre.emoji)

  looked_up : Text → Option Text → Option (Text × Text)
  looked_up emoji none = none
  looked_up emoji (some key) = some (key, emoji)

  chosen : Text × Text → Option (Text × Text)
  unfolding looked_up
  chosen (key, emoji) =
      if is_nil key
      then looked_up emoji (map_emoji_to_emotion_key fully_qualify emoji)
      else some (key, emoji)

  react :
      Text → Text → Text → Text → Access → Session W → (HandlerError E ⊎ StoredReaction) × Session W
  unfolding requested normalize_teams_reaction_message_id
  react thread_id target key emoji consumer s =
      let message = normalize_teams_reaction_message_id target in
      let stored : StoredReaction = record { emoji_id = key; emoji = emoji } in
      if is_nil message
      then (inl missing_teams_message_id, s)
      else requested sv stored (
          lift
            (λ w.
              error_of
                (add_reaction sv.wire consumer thread_id message key (pos (sv.unix_milli w)) w))
            s)

  on_chosen :
      Text → Text → Option (Text × Text) → Session W → (HandlerError E ⊎ StoredReaction) × Session W
  unfolding with_consumer react
  on_chosen thread_id target none s = (inl unsupported_reaction_emoji, s)
  on_chosen thread_id target (some (key, emoji)) s =
      with_consumer sv (react thread_id target key emoji) (sv.consumer s.world) s

  handle_reaction :
      Text
      → Text
      → Option Text
      → Option PreResponse
      → Session W
      → (HandlerError E ⊎ StoredReaction) × Session W
  unfolding on_chosen chosen given
  handle_reaction portal_id target none pre s = (inl missing_reaction_content, s)
  handle_reaction portal_id target (some key) pre s =
      if is_nil target
      then (inl target_message_not_found, s)
      else if is_nil (trim_space portal_id)
      then (inl HandlerError.missing_thread_id, s)
      else on_chosen (trim_space portal_id) target (chosen (given pre (trim_space key))) s

  -- HandleMatrixReaction: an empty target stands for a missing one.
  pub handle_matrix_reaction :
      Text
      → Text
      → Option Text
      → Option PreResponse
      → Session W
      → (HandlerError E ⊎ StoredReaction) × Session W
  unfolding signed_in handle_reaction
  handle_matrix_reaction portal_id target content pre s =
      signed_in sv (handle_reaction portal_id target content pre) s

  unreact : Text → Text → Text → Access → Session W → (HandlerError E ⊎ Unit {0}) × Session W
  unfolding requested normalize_teams_reaction_message_id
  unreact thread_id target key consumer s =
      let message = normalize_teams_reaction_message_id target in
      if is_nil message
      then (inl missing_teams_message_id, s)
      else requested sv tt
          (lift (λ w. error_of (remove_reaction sv.wire consumer thread_id message key w)) s)

  on_stored_key : Text → Text → Option Text → Session W → (HandlerError E ⊎ Unit {0}) × Session W
  unfolding with_consumer unreact
  on_stored_key thread_id target none s = (inr tt, s)
  on_stored_key thread_id target (some key) s =
      with_consumer sv (unreact thread_id target key) (sv.consumer s.world) s

  -- The key that the reaction was stored with, or else that of its emoji.
  stored_key : TargetReaction → Option Text
  stored_key r =
      let key = trim_space r.emoji_id in
      if is_nil key then map_emoji_to_emotion_key fully_qualify r.emoji else some key

  handle_remove : Text → Option TargetReaction → Session W → (HandlerError E ⊎ Unit {0}) × Session W
  unfolding on_stored_key stored_key
  handle_remove portal_id none s = (inr tt, s)
  handle_remove portal_id (some r) s =
      if is_nil (trim_space portal_id)
      then (inl HandlerError.missing_thread_id, s)
      else on_stored_key (trim_space portal_id) r.message_id (stored_key r) s

  -- HandleMatrixReactionRemove
  pub handle_matrix_reaction_remove :
      Text → Option TargetReaction → Session W → (HandlerError E ⊎ Unit {0}) × Session W
  unfolding signed_in handle_remove
  handle_matrix_reaction_remove portal_id target s = signed_in sv (handle_remove portal_id target) s
