-- ===== src/Connector/Outbound/Presence/Reading.antt =====
-- HandleMatrixReadReceipt (pkg/connector/handlematrix.go): what it leaves owed.
use matrix_teams.Prelude.{
  ◌≡◌, refl, Bool, true, false, Option, none, some, if◌then◌else◌, is_nil, Text, text_eq,
  trim_space,
}
use matrix_teams.Client.Access.{Access}
use matrix_teams.Client.Sending.{SendError}
use matrix_teams.Connector.Tracker.{should_send_receipt}
use matrix_teams.Connector.Tracker.Unread.{owed, receipt_settles}
use matrix_teams.Connector.Outbound.{Session, Services, lift}
use matrix_teams.Connector.Outbound.Guards.{with_token, signed_in, with_consumer, requested}
use matrix_teams.Connector.Outbound.Presence.{
  send_horizon, on_receipt_due, due, handle_read, handle_matrix_read_receipt,
}

module _ {W E : Type 0} (sv : Services W E) where
  tracker-requested :
      (r : Option (SendError E) × Session W)
      → (requested sv {A = Unit {0}} tt r).1.tracker ≡ r.1.tracker
  unfolding requested
  tracker-requested (none, s) = refl
  tracker-requested (some err, s) = refl

  tracker-with_consumer :
      (thread_id : Text) (c : Option Access) (s : Session W)
      → (with_consumer sv (send_horizon sv thread_id) c s).1.tracker ≡ s.tracker
  unfolding with_consumer send_horizon requested
  tracker-with_consumer thread_id none s = refl
  tracker-with_consumer thread_id (some c) s = tracker-requested _

  tracker-on_receipt_due :
      (thread_id : Text) (b : Bool) (s : Session W)
      → (on_receipt_due sv thread_id (b, s)).1.tracker ≡ s.tracker
  unfolding on_receipt_due
  tracker-on_receipt_due thread_id false s = refl
  tracker-on_receipt_due thread_id true s = tracker-with_consumer thread_id (sv.consumer s.world) s

  -- A read receipt of a signed-in user settles its thread and no other, and it does so whether or not
  -- the request to Teams succeeds, or is made at all.
  pub handle_matrix_read_receipt-owed :
      (portal_id u : Text) (s : Session W)
      → sv.is_logged_in s.world ≡ true
      → (sv.ensure_valid_skype_token s.world).0 ≡ none
      → is_nil (trim_space portal_id) ≡ false
      → owed (handle_matrix_read_receipt sv portal_id s).1.tracker u
        ≡ (if text_eq (trim_space portal_id) u then false else owed s.tracker u)
  unfolding handle_matrix_read_receipt signed_in with_token handle_read
  handle_matrix_read_receipt-owed portal_id u s login ok named =
      let t = trim_space portal_id in
      let s1 = (lift sv.ensure_valid_skype_token s).1 in
      rw (login, ok, named)
        (rw (tracker-on_receipt_due t (should_send_receipt t s.tracker).0 (due sv t s1).1)
          ((receipt_settles t u s.tracker).1))
