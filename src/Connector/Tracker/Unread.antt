-- ===== src/Connector/Tracker/Unread.antt =====
-- Unread threads (`markUnread`, `shouldSendReceipt` of pkg/connector/handlematrix.go): a thread is
-- owed one receipt from each mark until the next receipt.
use matrix_teams.Prelude.{
  ℕ, ◌+◌, ◌≤◌, ◌≡◌, Bool, true, false, not, ◌&&◌, List, [], ◌∷◌, arith, if◌then◌else◌, Text,
  text_eq, text_eq_iff, lookup-insert,
}
use matrix_teams.Connector.Tracker.{Tracker, flag, mark_unread, should_send_receipt}

-- The abstract state: the threads that are owed a receipt.
abbrev pub owed : Tracker → Text → Bool
owed s t = flag s.unread_seen t && not (flag s.unread_sent t)

-- A mark makes its thread owed, and changes no other.
pub owed-mark_unread :
    (t u : Text) (s : Tracker) → owed (mark_unread t s) u ≡ (if text_eq t u then true else owed s u)
unfolding mark_unread
owed-mark_unread t u s =
    ground (arith, lookup-insert s.unread_seen t u true, lookup-insert s.unread_sent t u false)

-- A receipt goes out exactly to a thread that is owed one, which is then owed none; no other changes.
pub receipt_settles :
    (t u : Text) (s : Tracker)
    → ((should_send_receipt t s).0 ≡ owed s t)
      × (owed (should_send_receipt t s).1 u ≡ (if text_eq t u then false else owed s u))
unfolding should_send_receipt
receipt_settles t u s =
    (ground arith, ground (arith, lookup-insert s.unread_sent t u true, text_eq_iff t u))

-- What the sync loop and the framework's read receipts do to one thread after another.
pub data Action : Type 0 where
  mark : Text → Action
  read : Text → Action

-- How many receipts a row of actions sends to a thread, and how often it marks it.
unfoldable pub receipts : Text → List Action → Tracker → ℕ
receipts u [] s = 0
receipts u (mark t ∷ rest) s = receipts u rest (mark_unread t s)
receipts u (read t ∷ rest) s =
    let n = receipts u rest (should_send_receipt t s).1 in
    if (should_send_receipt t s).0 && text_eq t u then n + 1 else n

pub marks : Text → List Action → ℕ
marks u [] = 0
marks u (mark t ∷ rest) = let n = marks u rest in if text_eq t u then n + 1 else n
marks u (read t ∷ rest) = marks u rest

abbrev pub count_owed : Bool → ℕ
count_owed b = if b then 1 else 0

-- Whatever the marks and the reads, of whatever threads and in whatever order, a thread is sent at
-- most as many receipts as it was marked, and one more if it was owed one at the start.
pub receipts-le-marks :
    (u : Text) (acts : List Action) (s : Tracker)
    → receipts u acts s ≤ marks u acts + count_owed (owed s u)
unfolding receipts marks
receipts-le-marks u [] s = omega arith
receipts-le-marks u (mark t ∷ rest) s =
    ground (arith, receipts-le-marks u rest (mark_unread t s), owed-mark_unread t u s)
receipts-le-marks u (read t ∷ rest) s = ground (
  arith,
  receipts-le-marks u rest (should_send_receipt t s).1,
  receipt_settles t u s,
  text_eq_iff t u,
)
