-- ===== src/Connector/Tracker/Examples.antt =====
-- Runs of the tracker's methods (pkg/connector/client.go, handlematrix.go, handleteams.go).
use matrix_teams.Prelude.{
  ◌+◌, ◌≤◌, ◌≡◌, refl, true, false, List, [], ◌∷◌, arith, ◌↔◌, ◌⊎◌, if◌then◌else◌, Text, codes,
  text_eq, trim_space, is_nil, lookup, insert,
}
use matrix_teams.Connector.Tracker.{
  Tracker, Time, last_poll, receipt_poll_interval, record_self_message, consume_self_message,
  should_send_receipt, mark_unread, should_poll_receipts, mark_reaction_seen,
}
use matrix_teams.Connector.Tracker.SelfMessages.{consume_answer, echo_once, live}
use matrix_teams.Connector.Tracker.Unread.{
  owed, receipt_settles, receipts-le-marks, receipts, marks, Action, mark, read, count_owed,
}
use matrix_teams.Connector.Tracker.Receipts.{poll_due, poll_times-IsSpaced, poll_times, IsSpaced}

abbrev empty : Tracker
empty = record {
  self_messages = [];
  unread_seen = [];
  unread_sent = [];
  receipt_poll = [];
  reaction_seen = [];
}

abbrev id : Text
id = codes " 17 "

-- A reaction is seen, then unseen once.
test_reaction_seen : (mark_reaction_seen id false (mark_reaction_seen id true empty).1).0 ≡ true
unfolding mark_reaction_seen lookup insert text_eq
test_reaction_seen = refl

test_named : is_nil (trim_space id) ≡ false
unfolding trim_space
test_named = refl

echo_once_example :
    ((consume_self_message id 20 (record_self_message id 10 empty)).0 ≡ true)
    × ((consume_self_message id 30
          (consume_self_message id 20 (record_self_message id 10 empty)).1).0
        ≡ false)
echo_once_example =
    echo_once id 10 20 30 empty tt test_named (omega arith) (omega arith) (omega arith)

test_consume_answer :
    ((consume_self_message id 20 empty).0 ≡ true)
    ↔ ((is_nil (trim_space id) ≡ false) × (live 20 empty (trim_space id) ≡ true))
test_consume_answer = consume_answer id 20 empty tt

test_receipt_settles :
    ((should_send_receipt id (mark_unread id empty)).0 ≡ owed (mark_unread id empty) id)
    × (owed (should_send_receipt id (mark_unread id empty)).1 id
        ≡ (if text_eq id id then false else owed (mark_unread id empty) id))
test_receipt_settles = receipt_settles id id (mark_unread id empty)

abbrev acts : List Action
acts = read id ∷ mark id ∷ mark id ∷ read id ∷ read id ∷ []

test_receipts : receipts id acts empty ≡ 1
unfolding receipts should_send_receipt mark_unread lookup insert text_eq
test_receipts = refl

receipts-le-marks_example : receipts id acts empty ≤ marks id acts + count_owed (owed empty id)
receipts-le-marks_example = receipts-le-marks id acts empty

test_poll_due : ((should_poll_receipts id 5 empty).0 ≡ true) ↔ (
    (last_poll empty.receipt_poll id ≡ 0)
    ⊎ (last_poll empty.receipt_poll id + receipt_poll_interval ≤ 5))
test_poll_due = poll_due id 5 empty

abbrev calls : List (Text × Time)
calls = (id, 5) ∷ (id, 9) ∷ (id, 30_000_000_005) ∷ []

test_poll_times : poll_times id calls empty ≡ 5 ∷ 30_000_000_005 ∷ []
unfolding poll_times should_poll_receipts lookup insert text_eq
test_poll_times = refl

poll_times-IsSpaced_example : IsSpaced (last_poll empty.receipt_poll id) (poll_times id calls empty)
poll_times-IsSpaced_example = poll_times-IsSpaced id calls empty
