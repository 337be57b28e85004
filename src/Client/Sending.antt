-- ===== src/Client/Sending.antt =====
-- The requests that change something on Teams: SendMessageWithID and its relatives of
-- internal/teams/client/messages.go, AddReaction and RemoveReaction of reactions.go,
-- SetConsumptionHorizon of receipts.go, SendTypingIndicator of typing.go.
use matrix_teams.Prelude.{
  ℕ, Bool, true, false, not, ◌&&◌, Option, none, some, List, [], ◌∷◌, ◌++◌, ◌==◌, if◌then◌else◌,
  is_nil, ℤ, pos, negsuc, Text, codes, trim_space,
}
use matrix_teams.Client.Access.{Access, base_url, default_send_messages_url}
use matrix_teams.Client.Content.{format_html_content, format_gif_content}

-- A value of a payload, and one in an object of it.
pub data Scalar : Type 0 where
  string : Text → Scalar
  number : ℤ → Scalar

pub data Value : Type 0 where
  text : Text → Value
  fields : List (Text × Scalar) → Value

-- A request: the method, the address, the header `authentication`, the payload.
pub record Call : Type 0 where
  pub method : Text
  pub endpoint : Text
  pub authentication : Text
  pub payload : List (Text × Value)

-- What the executor returns: the status of the response, if there is one, and the error.
pub record Outcome (E : Type 0) : Type 0 where
  pub status : Option ℕ
  pub error : Option E

pub data SendError (E : Type 0) : Type 0 where
  missing_http_client missing_token missing_thread_id : SendError E
  missing_message_content missing_from_user_id missing_client_message_id : SendError E
  missing_files_property missing_teams_message_id missing_emotion_key : SendError E
  missing_applied_timestamp missing_consumption_horizon : SendError E
  failed : E → SendError E

-- TeamsRequestExecutor.Do with its classifier, on a state of the world; url.PathEscape; and the time
-- that the code prints.
pub record Wire (S E : Type 0) : Type 1 where
  pub execute : Call → S → Outcome E × S
  pub path_escape : Text → Text
  pub now : S → Text

module _ {S E : Type 0} (w : Wire S E) (c : Access) where
  -- The status is 0 where an error comes without a response.
  status_of : Option ℕ → ℕ
  status_of none = 0
  status_of (some status) = status

  abbrev pub Sent : Type 0
  Sent = (ℕ × Option (SendError E)) × S

  refuse : SendError E → S → Sent
  refuse err s = ((0, some err), s)

  answered : ℕ → Option E → S → Sent
  answered status none s = ((status, none), s)
  answered status (some err) s = ((status, some (failed err)), s)

  finish : Outcome E × S → Sent
  unfolding answered status_of
  finish (o, s) = answered (status_of o.status) o.error s

  call : Text → Text → List (Text × Value) → Call
  call method path payload = record {
    method = method;
    endpoint = base_url c.send_messages_url default_send_messages_url ++ path;
    authentication = codes "skypetoken=" ++ c.token;
    payload = payload;
  }

  abbrev slash : Text → Text
  slash part = codes "/" ++ w.path_escape part

  -- sendRichTextMessageWithID
  pub send_rich_text_message_with_id : Text → Text → Text → Text → Text → Bool → S → Sent
  unfolding refuse finish call
  send_rich_text_message_with_id thread_id html files from_user_id client_message_id allow_empty s =
      let thread = trim_space thread_id in
      let base : List (Text × Value) =
        (codes "type", text (codes "Message"))
        ∷ (codes "conversationid", text thread)
        ∷ (codes "content", text html)
        ∷ (codes "messagetype", text (codes "RichText/Html"))
        ∷ (codes "contenttype", text (codes "Text"))
        ∷ (codes "clientmessageid", text client_message_id)
        ∷ (codes "composetime", text (w.now s))
        ∷ (codes "originalarrivaltime", text (w.now s))
        ∷ (codes "from", text from_user_id)
        ∷ (codes "fromUserId", text from_user_id)
        ∷ [] in
      let properties : List (Text × Value) =
        if is_nil (trim_space files)
        then []
        else (codes "properties", fields ((codes "files", string files) ∷ [])) ∷ [] in
      if not c.has_http
      then refuse missing_http_client s
      else if is_nil c.token
      then refuse missing_token s
      else if is_nil thread
      then refuse missing_thread_id s
      else if not allow_empty && is_nil (trim_space html)
      then refuse missing_message_content s
      else if is_nil (trim_space from_user_id)
      then refuse missing_from_user_id s
      else if is_nil client_message_id
      then refuse missing_client_message_id s
      else finish (
          w.execute (call (codes "POST") (slash thread ++ codes "/messages") (base ++ properties))
            s)

  -- SendMessageWithID
  unfoldable pub send_message_with_id : Text → Text → Text → Text → S → Sent
  unfolding send_rich_text_message_with_id
  send_message_with_id thread_id body from_user_id client_message_id s =
      send_rich_text_message_with_id thread_id (format_html_content body) [] from_user_id
        client_message_id false s

  -- SendGIFWithID
  pub send_gif_with_id : Text → Text → Text → Text → Text → S → Sent
  unfolding send_rich_text_message_with_id
  send_gif_with_id thread_id gif_url title from_user_id client_message_id s =
      send_rich_text_message_with_id thread_id (format_gif_content gif_url title) [] from_user_id
        client_message_id false s

  -- SendAttachmentMessageWithID
  pub send_attachment_message_with_id : Text → Text → Text → Text → Text → S → Sent
  unfolding send_rich_text_message_with_id refuse
  send_attachment_message_with_id thread_id html files from_user_id client_message_id s =
      if is_nil (trim_space files)
      then refuse missing_files_property s
      else send_rich_text_message_with_id thread_id html files from_user_id client_message_id true s

  is_zero : ℤ → Bool
  is_zero (pos n) = n == 0
  is_zero (negsuc n) = false

  -- sendReaction
  send_reaction : Text → Text → Text → List (Text × Scalar) → S → Sent
  unfolding finish call
  send_reaction method thread message emotions s =
      let path =
        slash thread ++ codes "/messages" ++ slash message ++ codes "/properties?name=emotions" in
      finish (w.execute (call method path ((codes "emotions", fields emotions) ∷ [])) s)

  -- AddReaction
  pub add_reaction : Text → Text → Text → ℤ → S → Sent
  unfolding refuse is_zero send_reaction
  add_reaction thread_id teams_message_id emotion_key applied_at_ms s =
      let thread = trim_space thread_id in
      let message = trim_space teams_message_id in
      let emotions : List (Text × Scalar) =
        (codes "key", string emotion_key) ∷ (codes "value", number applied_at_ms) ∷ [] in
      if not c.has_http
      then refuse missing_http_client s
      else if is_nil c.token
      then refuse missing_token s
      else if is_nil thread
      then refuse missing_thread_id s
      else if is_nil message
      then refuse missing_teams_message_id s
      else if is_nil (trim_space emotion_key)
      then refuse missing_emotion_key s
      else if is_zero applied_at_ms
      then refuse missing_applied_timestamp s
      else send_reaction (codes "PUT") thread message emotions s

  -- RemoveReaction
  pub remove_reaction : Text → Text → Text → S → Sent
  unfolding refuse send_reaction
  remove_reaction thread_id teams_message_id emotion_key s =
      let thread = trim_space thread_id in
      let message = trim_space teams_message_id in
      if not c.has_http
      then refuse missing_http_client s
      else if is_nil c.token
      then refuse missing_token s
      else if is_nil thread
      then refuse missing_thread_id s
      else if is_nil message
      then refuse missing_teams_message_id s
      else if is_nil (trim_space emotion_key)
      then refuse missing_emotion_key s
      else send_reaction (codes "DELETE") thread message ((codes "key", string emotion_key) ∷ []) s

  -- SetConsumptionHorizon
  pub set_consumption_horizon : Text → Text → S → Sent
  unfolding refuse finish call
  set_consumption_horizon thread_id horizon s =
      let thread = trim_space thread_id in
      let value = trim_space horizon in
      let path = slash thread ++ codes "/properties?name=consumptionhorizon" in
      if not c.has_http
      then refuse missing_http_client s
      else if is_nil c.token
      then refuse missing_token s
      else if is_nil thread
      then refuse missing_thread_id s
      else if is_nil value
      then refuse missing_consumption_horizon s
      else finish
          (w.execute (call (codes "PUT") path ((codes "consumptionhorizon", text value) ∷ [])) s)

  -- SendTypingIndicator, with GenerateClientMessageID.
  pub send_typing_indicator : (S → Text × S) → Text → Text → S → Sent
  unfolding refuse finish call
  send_typing_indicator generate thread_id from_user_id s =
      let (client_message_id, s') = generate s in
      let thread = trim_space thread_id in
      let user = trim_space from_user_id in
      let payload : List (Text × Value) =
        (codes "type", text (codes "Message"))
        ∷ (codes "conversationid", text thread)
        ∷ (codes "messagetype", text (codes "Control/Typing"))
        ∷ (codes "contenttype", text (codes "Text"))
        ∷ (codes "clientmessageid", text client_message_id)
        ∷ (codes "composetime", text (w.now s))
        ∷ (codes "originalarrivaltime", text (w.now s))
        ∷ (codes "from", text user)
        ∷ (codes "fromUserId", text user)
        ∷ [] in
      if not c.has_http
      then refuse missing_http_client s
      else if is_nil c.token
      then refuse missing_token s
      else if is_nil thread
      then refuse missing_thread_id s
      else if is_nil user
      then refuse missing_from_user_id s
      else finish (w.execute (call (codes "POST") (slash thread ++ codes "/messages") payload) s')
