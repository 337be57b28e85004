-- ===== src/Connector/Outbound/Messages/Settled.antt =====
-- HandleMatrixMessage (pkg/connector/handlematrix.go) as a whole: the transaction and the echo.
use matrix_teams.Prelude.{
  ℕ, ◌+◌, ◌≤◌, ◌≡◌, refl, ◌∙◌, ap, true, false, not, ◌&&◌, ◌⊎◌, inl, inr, Option, none, some, List,
  [], ◌∷◌, is_nil, is_some, arith, Text, text_eq_refl, trim_space, one_of, IsDistinct, Bool-cases,
}
use matrix_teams.Client.Access.{Access}
use matrix_teams.Bridge.Files.{MessageEventContent}
use matrix_teams.Connector.Tracker.{
  Tracker, Time, record_self_message, consume_self_message, self_message_ttl,
}
use matrix_teams.Connector.Tracker.SelfMessages.{record-IsDistinct, live-record, consume_answer}
use matrix_teams.Connector.Outbound.{Session, HandlerError, Services, lift}
use matrix_teams.Connector.Outbound.Messages.{
  MessageResponse, is_text_or_file, without, record_self, deliver, settle_message, send_pending,
  on_consumer, on_content, on_token, handle_matrix_message,
}
use matrix_teams.Connector.Outbound.Messages.Delivery.{Kept, after_deliver}

one_of-without :
    (t id : Text) (ts : List Text) → (one_of t (without id ts) && not (one_of t ts)) ≡ false
unfolding one_of without
one_of-without t id [] = refl
one_of-without t id (u ∷ ts) = ground (arith, one_of-without t id ts)

without-cons : (id : Text) (ts : List Text) → without id (id ∷ ts) ≡ without id ts
unfolding without
without-cons id ts = rw text_eq_refl refl

-- After an error the tracker is as before, and a transaction that is pending was so before. After a
-- success the transaction of the response is the one more that is pending, and its identifier, that
-- of the message on Teams, is recognised as the user's own when it comes back `wait` later.
abbrev pub Settled :
    {W E : Type 0}
    → Services W E
    → Text
    → ℕ
    → Session W
    → (HandlerError E ⊎ MessageResponse) × Session W
    → Type 0
Settled sv t wait s (inl err, s') =
    (s'.tracker ≡ s.tracker) × ((one_of t s'.pending && not (one_of t s.pending)) ≡ false)
Settled sv t wait s (inr response, s') =
    (s'.pending ≡ response.id ∷ s.pending)
    × ((consume_self_message response.id (sv.clock s'.world + wait) s'.tracker).0 ≡ true)

module _ {W E : Type 0} (sv : Services W E) (t : Text) (wait : ℕ) (soon : wait ≤ self_message_ttl)
    (named : (w : W) → is_nil (trim_space (sv.generate_client_message_id w).0) ≡ false) where
  recognised :
      (id : Text) (now : Time) (tr : Tracker)
      → IsDistinct tr.self_messages
      → is_nil (trim_space id) ≡ false
      → (consume_self_message id (now + wait) (record_self_message id now tr)).0 ≡ true
  recognised id now tr d n =
      (consume_answer id (now + wait) (record_self_message id now tr)
          (record-IsDistinct id now tr d)).1
        (
          n,
          ground (
            arith,
            live-record id (trim_space id) now (now + wait) tr d (omega arith) n,
            text_eq_refl (trim_space id),
          ),
        )

  Settled-settle_message :
      (s s1 : Session W) (response : MessageResponse) (o : Option (HandlerError E)) (s' : Session W)
      → is_nil (trim_space response.id) ≡ false
      → IsDistinct s.tracker.self_messages
      → s1.tracker ≡ s.tracker
      → s1.pending ≡ response.id ∷ s.pending
      → Kept s1 (is_some o) s'
      → Settled sv t wait s (settle_message sv response (o, s'))
  unfolding settle_message record_self
  Settled-settle_message s s1 response (some err) s' n d et ep (p, (k, kd)) = (
    k refl ∙ et,
    rw (p, ep, without-cons response.id s.pending) (one_of-without t response.id s.pending),
  )
  Settled-settle_message s s1 response none s' n d et ep (p, (k, kd)) =
      (p ∙ ep, recognised response.id (sv.clock s'.world) s'.tracker (kd (rw et d)) n)

  Settled-send_pending :
      (s s1 : Session W) (consumer : Access) (thread_id : Text) (content : MessageEventContent)
      (id : Text)
      → is_text_or_file content.msg_type ≡ true
      → is_nil (trim_space id) ≡ false
      → IsDistinct s.tracker.self_messages
      → s1.tracker ≡ s.tracker
      → s1.pending ≡ s.pending
      → Settled sv t wait s (send_pending sv consumer thread_id content (id, s1))
  unfolding send_pending
  Settled-send_pending s s1 consumer thread_id content id ok n d et ep =
      let s2 : Session W = record s1 { pending = id ∷ s1.pending } in
      let r = deliver sv consumer thread_id id content content.msg_type s2 in
      let response : MessageResponse = record {
        id = id;
        sender_id = trim_space (sv.teams_user_id s1.world);
        stream_order = sv.unix_milli s1.world;
      } in
      rw ok (
        Settled-settle_message s s2 response r.0 r.1 n d et (ap (λ ts. id ∷ ts) ep) (
          after_deliver sv s2 consumer thread_id id content content.msg_type s2
            (refl, ((λ e. refl), (λ h. h)))))

  same :
      (s s' : Session W) (err : HandlerError E)
      → s'.tracker ≡ s.tracker
      → s'.pending ≡ s.pending
      → Settled sv t wait s (inl err, s')
  same s s' err et ep = (et, rw ep (ground arith))

  Settled-on_content :
      (s s1 : Session W) (portal_id : Text) (content : MessageEventContent)
      → is_text_or_file content.msg_type ≡ true
      → IsDistinct s.tracker.self_messages
      → s1.tracker ≡ s.tracker
      → s1.pending ≡ s.pending
      → Settled sv t wait s (on_content sv portal_id (some content) s1)
  unfolding on_content on_consumer
  Settled-on_content s s1 portal_id content ok d et ep =
      elim (Bool-cases (is_nil (trim_space portal_id))) [
        | inl e ↦ rw e (same s s1 HandlerError.missing_thread_id et ep)
        | inr e ↦ rw e (by_consumer (sv.consumer s1.world))
      ]
    where
      by_consumer :
          (c : Option Access)
          → Settled sv t wait s (on_consumer sv (trim_space portal_id) content c s1)
      by_consumer none = same s s1 HandlerError.missing_consumer et ep
      by_consumer (some consumer) =
          Settled-send_pending s (lift sv.generate_client_message_id s1).1 consumer
            (trim_space portal_id) content (sv.generate_client_message_id s1.world).0 ok
            (named s1.world) d et ep

  Settled-on_token :
      (s s1 : Session W) (portal_id : Text) (content : MessageEventContent) (o : Option E)
      → is_text_or_file content.msg_type ≡ true
      → IsDistinct s.tracker.self_messages
      → s1.tracker ≡ s.tracker
      → s1.pending ≡ s.pending
      → Settled sv t wait s (on_token sv portal_id (some content) (o, s1))
  unfolding on_token
  Settled-on_token s s1 portal_id content (some err) ok d et ep =
      same s s1 (HandlerError.token err) et ep
  Settled-on_token s s1 portal_id content none ok d et ep =
      Settled-on_content s s1 portal_id content ok d et ep

  -- A text, image, file, video or audio message is settled, whatever the outcome: an error leaves the
  -- tracker as it was and no transaction pending that was not; a success leaves the transaction of the
  -- response pending and its identifier recognised when it comes back within five minutes. This
  -- supposes that the map of own messages is one, and that generated identifiers are not blank.
  pub handle_matrix_message-Settled :
      (portal_id : Text) (content : MessageEventContent) (s : Session W)
      → is_text_or_file content.msg_type ≡ true
      → IsDistinct s.tracker.self_messages
      → Settled sv t wait s (handle_matrix_message sv portal_id (some content) s)
  unfolding handle_matrix_message
  handle_matrix_message-Settled portal_id content s ok d =
      elim (Bool-cases (sv.is_logged_in s.world)) [
        | inl e ↦ rw e (
            Settled-on_token s (lift sv.ensure_valid_skype_token s).1 portal_id content
              (sv.ensure_valid_skype_token s.world).0 ok d refl refl)
        | inr e ↦ rw e (same s s HandlerError.not_logged_in refl refl)
      ]
