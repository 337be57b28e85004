-- ===== src/Connector/Tracker/SelfMessages.antt =====
-- The identifiers of messages that the bridge has sent itself (pkg/connector/client.go), by which
-- the echo of such a message is recognised once.
use matrix_teams.Prelude.{
  ◌+◌, ◌≤◌, ◌≡◌, refl, Bool, true, false, Option, none, some, arith, ◌↔◌, if◌then◌else◌, is_some,
  is_nil, leb, Text, text_eq, text_eq_iff, text_eq_refl, trim_space, lookup, retain, IsDistinct,
  kept, lookup-insert, lookup-erase, lookup-retain, insert-IsDistinct, erase-IsDistinct,
  retain-IsDistinct,
}
use matrix_teams.Connector.Tracker.{
  Time, Tracker, self_message_ttl, is_live, cleanup_self_messages, record_self_message,
  consume_self_message,
}

-- The map as the code can read it: an entry older than five minutes is as good as absent.
abbrev pub live : Time → Tracker → Text → Bool
live now s id = is_some (kept (is_live now) (lookup s.self_messages id))

is_live_lem : (now ts : Time) → (is_live now ts ≡ true) ↔ (now ≤ ts + self_message_ttl)
unfolding is_live
is_live_lem now ts = ground arith

-- `consumeSelfMessage` answers whether the trimmed identifier is not empty and was recorded at most
-- five minutes ago.
pub consume_answer :
    (id : Text) (now : Time) (s : Tracker)
    → IsDistinct s.self_messages
    → ((consume_self_message id now s).0 ≡ true)
      ↔ ((is_nil (trim_space id) ≡ false) × (live now s (trim_space id) ≡ true))
unfolding consume_self_message cleanup_self_messages
consume_answer id now s h =
    ground (arith, lookup-retain (is_live now) s.self_messages (trim_space id) h)

pub consume-IsDistinct :
    (id : Text) (now : Time) (s : Tracker)
    → IsDistinct s.self_messages
    → IsDistinct (consume_self_message id now s).1.self_messages
unfolding consume_self_message cleanup_self_messages
consume-IsDistinct id now s h = ground (
  arith,
  retain-IsDistinct (is_live now) s.self_messages h,
  erase-IsDistinct (retain (is_live now) s.self_messages) (trim_space id),
)

pub record-IsDistinct :
    (id : Text) (now : Time) (s : Tracker)
    → IsDistinct s.self_messages
    → IsDistinct (record_self_message id now s).self_messages
unfolding record_self_message cleanup_self_messages
record-IsDistinct id now s h = ground (
  arith,
  retain-IsDistinct (is_live now) s.self_messages h,
  insert-IsDistinct (retain (is_live now) s.self_messages) (trim_space id) now,
)

-- What is dropped now would be dropped later.
is_live_mono :
    (now later ts : Time) → now ≤ later → is_live now ts ≡ false → is_live later ts ≡ false
unfolding is_live
is_live_mono now later ts k h = ground arith

kept-kept :
    (now later : Time) (o : Option Time)
    → now ≤ later
    → kept (is_live later) (kept (is_live now) o) ≡ kept (is_live later) o
kept-kept now later none k = refl
kept-kept now later (some ts) k = ground (arith, is_live_mono now later ts k)

-- Recording makes its identifier live for five minutes, and changes no other, as seen at any time
-- from then on.
pub live-record :
    (id j : Text) (now later : Time) (s : Tracker)
    → IsDistinct s.self_messages
    → now ≤ later
    → is_nil (trim_space id) ≡ false
    → live later (record_self_message id now s) j
      ≡ (if text_eq (trim_space id) j then leb later (now + self_message_ttl) else live later s j)
unfolding record_self_message cleanup_self_messages
live-record id j now later s h k named = ground (
  arith,
  lookup-retain (is_live now) s.self_messages j h,
  lookup-insert (retain (is_live now) s.self_messages) (trim_space id) j now,
  kept-kept now later (lookup s.self_messages j) k,
  is_live_lem later now,
)

-- Consuming makes its identifier dead, and changes no other, as seen at any time from then on.
pub live-consume :
    (id j : Text) (now later : Time) (s : Tracker)
    → IsDistinct s.self_messages
    → now ≤ later
    → is_nil (trim_space id) ≡ false
    → live later (consume_self_message id now s).1 j
      ≡ (if text_eq (trim_space id) j then false else live later s j)
unfolding consume_self_message cleanup_self_messages
live-consume id j now later s h k named =
    let m = retain (is_live now) s.self_messages in
    ground (
      arith,
      lookup-retain (is_live now) s.self_messages j h,
      lookup-erase m (trim_space id) j,
      kept-kept now later (lookup s.self_messages j) k,
      text_eq_iff (trim_space id) j,
    )

-- The echo of a sent message is recognised once: recorded at `sent` and consumed within five minutes
-- it answers true, and from then on false.
pub echo_once :
    (id : Text) (sent seen later : Time) (s : Tracker)
    → IsDistinct s.self_messages
    → is_nil (trim_space id) ≡ false
    → sent ≤ seen
    → seen ≤ sent + self_message_ttl
    → seen ≤ later
    → (let s1 = record_self_message id sent s in
        let (first, s2) = consume_self_message id seen s1 in
        (first ≡ true) × ((consume_self_message id later s2).0 ≡ false))
echo_once id sent seen later s h named k live_still k' =
    let s1 = record_self_message id sent s in
    let d1 = record-IsDistinct id sent s h in
    let s2 = (consume_self_message id seen s1).1 in
    let d2 = consume-IsDistinct id seen s1 d1 in
    (
      (consume_answer id seen s1 d1).1 (
        named,
        ground (
          arith,
          live-record id (trim_space id) sent seen s h k named,
          text_eq_refl (trim_space id),
        ),
      ),
      ground (
        arith,
        consume_answer id later s2 d2,
        live-consume id (trim_space id) seen later s1 d1 k' named,
        text_eq_refl (trim_space id),
      ),
    )
