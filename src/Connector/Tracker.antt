-- ===== src/Connector/Tracker.antt =====
-- The maps of `TeamsClient` that remember what a sync loop has seen: pkg/connector/client.go (own
-- messages), handlematrix.go (unread threads), handleteams.go (polls of receipts, reactions).
-- Each method holds the mutex of its maps throughout, so it is one step. A nil map reads as an
-- empty one, and every method that writes makes it first.
pub mod SelfMessages
pub mod Unread
pub mod Receipts
mod Examples
use matrix_teams.Prelude.{
  ℕ, ◌+◌, ◌-◌, ◌*◌, ◌^◌, ◌≡◌, Bool, true, false, not, ◌&&◌, Option, none, some, List, [], ◌∷◌, ltb,
  leb, if◌then◌else◌, is_some, ℤ, pos, negsuc, pos_part, neg_part, sub_ℕ, ltb_ℤ, Text, text_eq,
  trim_space, is_nil, lookup, insert, erase, retain,
}

-- A `time.Time` is its distance in nanoseconds from the zero time, and `t.Sub(u)` a signed number of
-- nanoseconds in 64 bits that stops at the ends of its range.
abbrev pub Time : Type 0
Time = ℕ

abbrev pub saturate : ℤ → ℤ
saturate (pos n) = pos (if ltb n (2 ^ 63) then n else 2 ^ 63 - 1)
saturate (negsuc n) = negsuc (if ltb n (2 ^ 63) then n else 2 ^ 63 - 1)

abbrev pub time_sub : Time → Time → ℤ
time_sub t u = saturate (sub_ℕ t u)

abbrev pub self_message_ttl : ℕ
self_message_ttl = 300_000_000_000

abbrev pub receipt_poll_interval : ℕ
receipt_poll_interval = 30_000_000_000

pub record Tracker : Type 0 where
  pub self_messages : List (Text × Time)
  pub unread_seen : List (Text × Bool)
  pub unread_sent : List (Text × Bool)
  pub receipt_poll : List (Text × Time)
  pub reaction_seen : List (Text × Unit {0})

pub is_live : Time → Time → Bool
is_live now ts = not (ltb_ℤ (pos self_message_ttl) (time_sub now ts))

cleanup_self_messages : Time → Tracker → Tracker
cleanup_self_messages now s = record s { self_messages = retain (is_live now) s.self_messages }

-- recordSelfMessage at the time `now`
pub record_self_message : Text → Time → Tracker → Tracker
unfolding cleanup_self_messages
record_self_message client_message_id now s =
    let id = trim_space client_message_id in
    if is_nil id
    then s
    else (let s' = cleanup_self_messages now s in
        record s' { self_messages = insert s'.self_messages id now })

-- consumeSelfMessage at the time `now`
pub consume_self_message : Text → Time → Tracker → Bool × Tracker
unfolding cleanup_self_messages
consume_self_message client_message_id now s =
    let id = trim_space client_message_id in
    if is_nil id
    then (false, s)
    else (let s' = cleanup_self_messages now s in
        let exists = is_some (lookup s'.self_messages id) in
        (exists, if exists then record s' { self_messages = erase s'.self_messages id } else s'))

-- m[k] of a map into bool: a missing key reads as false.
abbrev pub flag : List (Text × Bool) → Text → Bool
flag m k = elim (lookup m k) [ none ↦ false | some b ↦ b ]

-- markUnread
pub mark_unread : Text → Tracker → Tracker
mark_unread thread_id s = record s {
  unread_seen = insert s.unread_seen thread_id true;
  unread_sent = insert s.unread_sent thread_id false;
}

-- shouldSendReceipt
pub should_send_receipt : Text → Tracker → Bool × Tracker
should_send_receipt thread_id s =
    if not (flag s.unread_seen thread_id)
    then (false, s)
    else if flag s.unread_sent thread_id
    then (false, s)
    else (true, record s { unread_sent = insert s.unread_sent thread_id true })

-- shouldPollReceipts: the zero time is what a missing key reads as.
pub last_poll : List (Text × Time) → Text → Time
last_poll m k = elim (lookup m k) [ none ↦ 0 | some t ↦ t ]

pub should_poll_receipts : Text → Time → Tracker → Bool × Tracker
unfolding last_poll
should_poll_receipts thread_id now s =
    let last = last_poll s.receipt_poll thread_id in
    if ltb 0 last && ltb_ℤ (time_sub now last) (pos receipt_poll_interval)
    then (false, s)
    else (true, record s { receipt_poll = insert s.receipt_poll thread_id now })

-- markReactionSeen
pub mark_reaction_seen : Text → Bool → Tracker → Bool × Tracker
mark_reaction_seen message_id seen s =
    let exists = is_some (lookup s.reaction_seen message_id) in
    (
      exists,
      if seen
          then record s { reaction_seen = insert s.reaction_seen message_id tt }
          else if exists
          then record s { reaction_seen = erase s.reaction_seen message_id }
          else s,
    )
