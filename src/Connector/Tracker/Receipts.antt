-- ===== src/Connector/Tracker/Receipts.antt =====
-- `shouldPollReceipts` of pkg/connector/handleteams.go: the read horizons of a thread are polled at
-- most once in thirty seconds.
use matrix_teams.Prelude.{
  ◌+◌, ◌≤◌, ◌≡◌, true, List, [], ◌∷◌, arith, ◌↔◌, ◌⊎◌, if◌then◌else◌, Text, text_eq, text_eq_iff,
  lookup-insert, ◌&&◌, Bool-cases, inl, inr,
}
use matrix_teams.Connector.Tracker.{
  Time, Tracker, last_poll, receipt_poll_interval, should_poll_receipts,
}

-- A thread is polled where it never was, and where its last poll is thirty seconds ago or more.
pub poll_due :
    (t : Text) (now : Time) (s : Tracker)
    → ((should_poll_receipts t now s).0 ≡ true) ↔ (
        (last_poll s.receipt_poll t ≡ 0)
        ⊎ (last_poll s.receipt_poll t + receipt_poll_interval ≤ now))
unfolding should_poll_receipts
poll_due t now s = ground arith

-- A poll is remembered with its time; a refusal, and a poll of another thread, change nothing.
pub poll_remembered :
    (t u : Text) (now : Time) (s : Tracker)
    → last_poll (should_poll_receipts t now s).1.receipt_poll u ≡ (
        if (should_poll_receipts t now s).0
        then (if text_eq t u then now else last_poll s.receipt_poll u)
        else last_poll s.receipt_poll u)
unfolding should_poll_receipts last_poll
poll_remembered t u now s = ground (arith, lookup-insert s.receipt_poll t u now)

-- The times of the polls of one thread in a row of calls for threads at times.
unfoldable pub poll_times : Text → List (Text × Time) → Tracker → List Time
poll_times u [] s = []
poll_times u ((t, now) ∷ rest) s =
    let times = poll_times u rest (should_poll_receipts t now s).1 in
    if (should_poll_receipts t now s).0 && text_eq t u then now ∷ times else times

-- Each time is at least thirty seconds after the one before it.
abbrev pub IsSpaced : Time → List Time → Type 0
IsSpaced last [] = Unit
IsSpaced last (t ∷ ts) = ((last ≡ 0) ⊎ (last + receipt_poll_interval ≤ t)) × IsSpaced t ts

-- Whatever the calls, two polls of one thread are at least thirty seconds apart.
pub poll_times-IsSpaced :
    (u : Text) (calls : List (Text × Time)) (s : Tracker)
    → IsSpaced (last_poll s.receipt_poll u) (poll_times u calls s)
unfolding poll_times
poll_times-IsSpaced u [] s = tt
poll_times-IsSpaced u ((t, now) ∷ rest) s =
    let ih = poll_times-IsSpaced u rest (should_poll_receipts t now s).1 in
    let kept = poll_remembered t u now s in
    elim (Bool-cases (should_poll_receipts t now s).0) [
      | inl e ↦ elim (Bool-cases (text_eq t u)) [
        | inl same ↦
            let at : t ≡ u = (text_eq_iff t u).0 same in
            rw (e, same) (rw (← at) ((poll_due t now s).0 e), rw (kept, e, same) at ih)
        | inr differ ↦ rw (e, differ) (rw (kept, e, differ) at ih)
      ]
      | inr e ↦ rw e (rw (kept, e) at ih)
    ]
