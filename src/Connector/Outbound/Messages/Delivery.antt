-- ===== src/Connector/Outbound/Messages/Delivery.antt =====
-- What HandleMatrixMessage (pkg/connector/handlematrix.go) leaves behind in the session.
use matrix_teams.Prelude.{
  ℕ, ◌≡◌, refl, Bool, true, false, ◌⊎◌, inl, inr, Option, none, some, List, is_nil, is_some, ltb,
  length, Text, trim_space, IsDistinct, Bool-cases,
}
use matrix_teams.Client.Access.{Access}
use matrix_teams.Client.Sending.{SendError}
use matrix_teams.Bridge.Files.{
  MsgType, MessageEventContent, FileError, max_attachment_bytes, handle_outbound_matrix_file,
}
use matrix_teams.Bridge.Files.Steps.{after_handle_outbound_matrix_file}
use matrix_teams.Bridge.Attachments.{GraphApi, AttachmentError}
use matrix_teams.Connector.Tracker.SelfMessages.{record-IsDistinct}
use matrix_teams.Connector.Gif.{extract_outbound_gif}
use matrix_teams.Connector.Outbound.{Session, SendFileError, Services, lift}
use matrix_teams.Connector.Outbound.Messages.{
  orchestrated, text_request, gif_request, record_self, on_sent_file, on_graph, on_graph_token,
  on_file_consumer, on_file_token, send_file, downloaded, downloading, file_error, send_error,
  deliver_file, deliver_image, deliver,
}

-- A step keeps the pending transactions; where it fails, the tracker too; and the map of own messages
-- stays a map.
abbrev pub Kept : {W : Type 0} → Session W → Bool → Session W → Type 0
Kept s failed s' =
    (s'.pending ≡ s.pending)
    × (((failed ≡ true) → s'.tracker ≡ s.tracker)
        × (IsDistinct s.tracker.self_messages → IsDistinct s'.tracker.self_messages))

module _ {W E : Type 0} (sv : Services W E) (s : Session W) where
  -- What failed so far has changed nothing, so what comes next may succeed.
  after_nothing : (b : Bool) (s' : Session W) → Kept s true s' → Kept s b s'
  after_nothing b s' (p, (t, d)) = (p, ((λ e. t refl), d))

  after_record_self :
      (id : Text) (s' : Session W) → Kept s true s' → Kept s false (record_self sv id s')
  unfolding record_self
  after_record_self id s' (p, (t, d)) =
      (p, ((λ e. absurd (cc)), (λ h. record-IsDistinct id (sv.clock s'.world) s'.tracker (d h))))

  after_sent_file :
      (r : (AttachmentError (SendError E) ⊎ Text) × Session W)
      → Kept s true r.1
      → Kept s (is_some (on_sent_file sv r).0) (on_sent_file sv r).1
  unfolding on_sent_file
  after_sent_file (inl err, s') h = h
  after_sent_file (inr sent_id, s') h = after_record_self sent_id s' h

  after_graph :
      (t f : Text) (bytes : List ℕ) (c id : Text) (a : Access)
      (g : Option (GraphApi W (SendError E))) (s' : Session W)
      → Kept s true s'
      → (let r = on_graph sv t f bytes c id a g s' in Kept s (is_some r.0) r.1)
  unfolding on_graph
  after_graph t f bytes c id a none s' h = h
  after_graph t f bytes c id a (some graph) s' h =
      after_sent_file (lift (orchestrated sv a graph (sv.teams_user_id s'.world) id t f bytes c) s')
        h

  after_graph_token :
      (t f : Text) (bytes : List ℕ) (c id : Text) (a : Access) (g : E ⊎ Text) (s' : Session W)
      → Kept s true s'
      → (let r = on_graph_token sv t f bytes c id a g s' in Kept s (is_some r.0) r.1)
  unfolding on_graph_token
  after_graph_token t f bytes c id a (inl err) s' h = h
  after_graph_token t f bytes c id a (inr token) s' h =
      after_graph t f bytes c id a (sv.graph_client token) s' h

  after_file_consumer :
      (t f : Text) (bytes : List ℕ) (c id : Text) (a : Option Access) (s' : Session W)
      → Kept s true s'
      → (let r = on_file_consumer sv t f bytes c id a s' in Kept s (is_some r.0) r.1)
  unfolding on_file_consumer
  after_file_consumer t f bytes c id none s' h = h
  after_file_consumer t f bytes c id (some a) s' h =
      after_graph_token t f bytes c id a (sv.graph_access_token s'.world) s' h

  after_file_token :
      (t f : Text) (bytes : List ℕ) (c id : Text) (e : Option E) (s' : Session W)
      → Kept s true s'
      → (let r = on_file_token sv t f bytes c id (e, s') in Kept s (is_some r.0) r.1)
  unfolding on_file_token
  after_file_token t f bytes c id (some err) s' h = h
  after_file_token t f bytes c id none s' h = elim (Bool-cases (is_nil (trim_space t))) [
    | inl e ↦ rw e h
    | inr e ↦ rw e (elim (Bool-cases (is_nil (trim_space f))) [
      | inl e' ↦ rw e' h
      | inr e' ↦ rw e' (elim (Bool-cases (is_nil bytes)) [
        | inl k ↦ rw k h
        | inr k ↦ rw k (elim (Bool-cases (ltb max_attachment_bytes (length bytes))) [
          | inl k' ↦ rw k' h
          | inr k' ↦ rw k' (
              after_file_consumer (trim_space t) (trim_space f) bytes c id (sv.consumer s'.world) s'
                h)
        ])
      ])
    ])
  ]

  after_send_file :
      (id t f : Text) (bytes : List ℕ) (c : Text) (s' : Session W)
      → Kept s true s'
      → (let r = send_file sv id t f bytes c s' in Kept s (is_some r.0) r.1)
  unfolding send_file
  after_send_file id t f bytes c s' h = elim (Bool-cases (sv.is_logged_in s'.world)) [
    | inl e ↦ rw e (
        after_file_token t f bytes c id (sv.ensure_valid_skype_token s'.world).0
          (lift sv.ensure_valid_skype_token s').1 h)
    | inr e ↦ rw e h
  ]

  after_downloaded :
      (s' : Session W) (r : (E ⊎ List ℕ) × W) → Kept s true s' → Kept s true (downloaded sv s' r).1
  after_downloaded s' (inl err, w) h = h
  after_downloaded s' (inr bytes, w) h = h

  after_file_error :
      (r : Option (FileError (SendFileError E)) × Session W)
      → Kept s (is_some r.0) r.1
      → Kept s (is_some (file_error sv r).0) (file_error sv r).1
  after_file_error (none, s') h = h
  after_file_error (some err, s') h = h

  after_deliver_file :
      (t id : Text) (content : MessageEventContent) (s' : Session W)
      → Kept s true s'
      → (let r = deliver_file sv t id content s' in Kept s (is_some r.0) r.1)
  unfolding deliver_file downloading
  after_deliver_file t id content s' h =
      after_file_error
        (handle_outbound_matrix_file sv.file_id (downloading sv) (send_file sv id) t content s')
        (after_handle_outbound_matrix_file sv.file_id (downloading sv) (send_file sv id) (Kept s)
          (λ url b s1 k. after_downloaded s1 (sv.download url b s1.world) k)
          (λ t' n bytes c s1 k. after_send_file id t' n bytes c s1 k) t content s' h)

  after_send_error :
      (r : Option (SendError E) × Session W)
      → Kept s true r.1
      → Kept s (is_some (send_error sv r).0) (send_error sv r).1
  after_send_error (none, s') h = after_nothing false s' h
  after_send_error (some err, s') h = h

  after_deliver_image :
      (a : Access) (t id : Text) (content : MessageEventContent) (gif : Option (Text × Text))
      (s' : Session W)
      → Kept s true s'
      → (let r = deliver_image sv a t id content gif s' in Kept s (is_some r.0) r.1)
  unfolding deliver_image
  after_deliver_image a t id content none s' h = after_deliver_file t id content s' h
  after_deliver_image a t id content (some (title, url)) s' h =
      after_send_error (lift (gif_request sv a t id title url) s') h

  pub after_deliver :
      (a : Access) (t id : Text) (content : MessageEventContent) (m : MsgType) (s' : Session W)
      → Kept s true s'
      → (let r = deliver sv a t id content m s' in Kept s (is_some r.0) r.1)
  unfolding deliver
  after_deliver a t id content MsgType.text s' h =
      after_send_error (lift (text_request sv a t id content.body) s') h
  after_deliver a t id content MsgType.image s' h =
      after_deliver_image a t id content (extract_outbound_gif sv.parse_url content) s' h
  after_deliver a t id content MsgType.file s' h = after_deliver_file t id content s' h
  after_deliver a t id content MsgType.video s' h = after_deliver_file t id content s' h
  after_deliver a t id content MsgType.audio s' h = after_deliver_file t id content s' h
  after_deliver a t id content MsgType.other s' h = h
