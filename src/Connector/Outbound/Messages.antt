-- ===== src/Connector/Outbound/Messages.antt =====
-- HandleMatrixMessage of pkg/connector/handlematrix.go and sendAttachmentMessageWithClientMessageID of
-- send_attachment.go.
pub mod Delivery
pub mod Settled
use matrix_teams.Prelude.{
  ℕ, Bool, true, false, not, ◌&&◌, ◌⊎◌, inl, inr, Option, none, some, List, [], ◌∷◌, if◌then◌else◌,
  is_nil, is_some, ltb, length, pos, Text, text_eq, trim_space,
}
use matrix_teams.Client.Access.{Access}
use matrix_teams.Client.Sending.{
  SendError, send_message_with_id, send_gif_with_id, send_attachment_message_with_id,
}
use matrix_teams.Bridge.Files.{
  MsgType, MessageEventContent, FileError, max_attachment_bytes, handle_outbound_matrix_file,
  is_file,
}
use matrix_teams.Bridge.Attachments.{
  GraphApi, TeamsSendApi, AttachmentError, AttachmentOrchestrator, send_attachment_message,
}
use matrix_teams.Connector.Tracker.{Tracker, record_self_message}
use matrix_teams.Connector.Gif.{extract_outbound_gif}
use matrix_teams.Connector.Outbound.{
  Session, SendFileError, HandlerError, Services, lift, error_of, outside, attachment, token,
  sending, file,
}

-- MatrixMessageResponse
pub record MessageResponse : Type 0 where
  pub id : Text
  pub sender_id : Text
  pub stream_order : ℕ

abbrev pub is_text_or_file : MsgType → Bool
is_text_or_file MsgType.text = true
is_text_or_file MsgType.image = true
is_text_or_file MsgType.file = true
is_text_or_file MsgType.video = true
is_text_or_file MsgType.audio = true
is_text_or_file MsgType.other = false

-- RemovePending
pub without : Text → List Text → List Text
without id [] = []
without id (t ∷ ts) = let rest = without id ts in if text_eq id t then rest else t ∷ rest

module _ {W E : Type 0} (sv : Services W E) where
  -- recordSelfMessage at the time of the call
  record_self : Text → Session W → Session W
  record_self id s = record s { tracker = record_self_message id (sv.clock s.world) s.tracker }

  orchestrator :
      Access → GraphApi W (SendError E) → Text → Text → AttachmentOrchestrator W (SendError E)
  orchestrator consumer graph user id = record {
    graph = graph;
    teams = record {
      send_attachment_message_with_id = λ thread html files from own w.
          error_of (send_attachment_message_with_id sv.wire consumer thread html files from own w);
    };
    from_user_id = trim_space user;
    max_bytes = pos max_attachment_bytes;
    generate_message_id =
        if is_nil (trim_space id) then sv.generate_client_message_id else λ w. (trim_space id, w);
    format_caption_to_html = none;
  }

  on_sent_file :
      (AttachmentError (SendError E) ⊎ Text) × Session W → Option (SendFileError E) × Session W
  unfolding record_self
  on_sent_file (inl err, s) = (some (attachment err), s)
  on_sent_file (inr sent_id, s) = (none, record_self sent_id s)

  abbrev orchestrated :
      Access
      → GraphApi W (SendError E)
      → Text
      → Text
      → Text
      → Text
      → List ℕ
      → Text
      → W
      → (AttachmentError (SendError E) ⊎ Text) × W
  orchestrated consumer graph user id thread_id filename content caption w =
      send_attachment_message sv.wire.path_escape sv.marshal (orchestrator consumer graph user id)
        thread_id filename content caption w

  on_graph :
      Text
      → Text
      → List ℕ
      → Text
      → Text
      → Access
      → Option (GraphApi W (SendError E))
      → Session W
      → Option (SendFileError E) × Session W
  unfolding orchestrator on_sent_file
  on_graph thread_id filename content caption id consumer none s =
      (some SendFileError.missing_http_client, s)
  on_graph thread_id filename content caption id consumer (some graph) s = on_sent_file (
      lift
        (orchestrated consumer graph (sv.teams_user_id s.world) id thread_id filename content
          caption)
        s)

  on_graph_token :
      Text
      → Text
      → List ℕ
      → Text
      → Text
      → Access
      → E ⊎ Text
      → Session W
      → Option (SendFileError E) × Session W
  unfolding on_graph
  on_graph_token thread_id filename content caption id consumer (inl err) s =
      (some (outside err), s)
  on_graph_token thread_id filename content caption id consumer (inr graph_token) s =
      on_graph thread_id filename content caption id consumer (sv.graph_client graph_token) s

  on_file_consumer :
      Text
      → Text
      → List ℕ
      → Text
      → Text
      → Option Access
      → Session W
      → Option (SendFileError E) × Session W
  unfolding on_graph_token
  on_file_consumer thread_id filename content caption id none s =
      (some SendFileError.missing_consumer, s)
  on_file_consumer thread_id filename content caption id (some consumer) s =
      on_graph_token thread_id filename content caption id consumer (sv.graph_access_token s.world)
        s

  on_file_token :
      Text
      → Text
      → List ℕ
      → Text
      → Text
      → Option E × Session W
      → Option (SendFileError E) × Session W
  unfolding on_file_consumer
  on_file_token thread_id filename content caption id (some err, s) = (some (outside err), s)
  on_file_token thread_id filename content caption id (none, s) =
      if is_nil (trim_space thread_id)
      then (some SendFileError.missing_thread_id, s)
      else if is_nil (trim_space filename)
      then (some SendFileError.missing_filename, s)
      else if is_nil content
      then (some SendFileError.missing_content, s)
      else if ltb max_attachment_bytes (length content)
      then (some SendFileError.exceeds_max_size, s)
      else on_file_consumer (trim_space thread_id) (trim_space filename) content caption id
          (sv.consumer s.world) s

  -- sendAttachmentMessageWithClientMessageID, less the identifier that the handler drops
  pub send_file :
      Text → Text → Text → List ℕ → Text → Session W → Option (SendFileError E) × Session W
  unfolding on_file_token
  send_file id thread_id filename content caption s =
      if sv.is_logged_in s.world
      then on_file_token thread_id filename content caption id (lift sv.ensure_valid_skype_token s)
      else (some SendFileError.not_logged_in, s)

  abbrev file_error :
      Option (FileError (SendFileError E)) × Session W → Option (HandlerError E) × Session W
  file_error (none, s) = (none, s)
  file_error (some err, s) = (some (file err), s)

  abbrev send_error : Option (SendError E) × Session W → Option (HandlerError E) × Session W
  send_error (none, s) = (none, s)
  send_error (some err, s) = (some (sending err), s)

  abbrev downloaded : Session W → (E ⊎ List ℕ) × W → (SendFileError E ⊎ List ℕ) × Session W
  downloaded s (inl err, w) = (inl (outside err), record s { world = w })
  downloaded s (inr bytes, w) = (inr bytes, record s { world = w })

  -- downloadMatrixMedia
  downloading : Text → Bool → Session W → (SendFileError E ⊎ List ℕ) × Session W
  downloading url encrypted s = downloaded s (sv.download url encrypted s.world)

  deliver_file : Text → Text → MessageEventContent → Session W → Option (HandlerError E) × Session W
  unfolding send_file downloading
  deliver_file thread_id id content s =
      file_error
        (handle_outbound_matrix_file sv.file_id downloading (send_file id) thread_id content s)

  abbrev text_request : Access → Text → Text → Text → W → Option (SendError E) × W
  text_request consumer thread_id id body w =
      error_of (send_message_with_id sv.wire consumer thread_id body (sv.teams_user_id w) id w)

  abbrev gif_request : Access → Text → Text → Text → Text → W → Option (SendError E) × W
  gif_request consumer thread_id id title gif_url w =
      error_of (send_gif_with_id sv.wire consumer thread_id gif_url title (sv.teams_user_id w) id w)

  deliver_image :
      Access
      → Text
      → Text
      → MessageEventContent
      → Option (Text × Text)
      → Session W
      → Option (HandlerError E) × Session W
  unfolding deliver_file
  deliver_image consumer thread_id id content none s = deliver_file thread_id id content s
  deliver_image consumer thread_id id content (some (title, gif_url)) s =
      send_error (lift (gif_request consumer thread_id id title gif_url) s)

  -- The switch over the message type; the type `other` does not get here.
  pub deliver :
      Access
      → Text
      → Text
      → MessageEventContent
      → MsgType
      → Session W
      → Option (HandlerError E) × Session W
  unfolding deliver_image deliver_file
  deliver consumer thread_id id content MsgType.text s =
      send_error (lift (text_request consumer thread_id id content.body) s)
  deliver consumer thread_id id content MsgType.image s =
      deliver_image consumer thread_id id content (extract_outbound_gif sv.parse_url content) s
  deliver consumer thread_id id content MsgType.file s = deliver_file thread_id id content s
  deliver consumer thread_id id content MsgType.video s = deliver_file thread_id id content s
  deliver consumer thread_id id content MsgType.audio s = deliver_file thread_id id content s
  deliver consumer thread_id id content MsgType.other s =
      (some HandlerError.unsupported_message_type, s)

  abbrev pub Handled : Type 0
  Handled = (HandlerError E ⊎ MessageResponse) × Session W

  settle_message : MessageResponse → Option (HandlerError E) × Session W → Handled
  unfolding without record_self
  settle_message response (some err, s) =
      (inl err, record s { pending = without response.id s.pending })
  settle_message response (none, s) = (inr response, record_self response.id s)

  send_pending : Access → Text → MessageEventContent → Text × Session W → Handled
  unfolding settle_message deliver
  send_pending consumer thread_id content (id, s) =
      let response : MessageResponse = record {
        id = id;
        sender_id = trim_space (sv.teams_user_id s.world);
        stream_order = sv.unix_milli s.world;
      } in
      let s' = record s { pending = id ∷ s.pending } in
      if is_text_or_file content.msg_type
      then settle_message response (deliver consumer thread_id id content content.msg_type s')
      else (inl HandlerError.unsupported_message_type, s')

  on_consumer : Text → MessageEventContent → Option Access → Session W → Handled
  unfolding send_pending
  on_consumer thread_id content none s = (inl HandlerError.missing_consumer, s)
  on_consumer thread_id content (some consumer) s =
      send_pending consumer thread_id content (lift sv.generate_client_message_id s)

  on_content : Text → Option MessageEventContent → Session W → Handled
  unfolding on_consumer
  on_content portal_id none s = (inl HandlerError.unsupported_message_type, s)
  on_content portal_id (some content) s =
      if is_nil (trim_space portal_id)
      then (inl HandlerError.missing_thread_id, s)
      else on_consumer (trim_space portal_id) content (sv.consumer s.world) s

  on_token : Text → Option MessageEventContent → Option E × Session W → Handled
  unfolding on_content
  on_token portal_id content (some err, s) = (inl (token err), s)
  on_token portal_id content (none, s) = on_content portal_id content s

  -- HandleMatrixMessage: the portal's identifier, and the content, if the message has one.
  unfoldable pub handle_matrix_message : Text → Option MessageEventContent → Session W → Handled
  unfolding on_token
  handle_matrix_message portal_id content s =
      if sv.is_logged_in s.world
      then on_token portal_id content (lift sv.ensure_valid_skype_token s)
      else (inl HandlerError.not_logged_in, s)
