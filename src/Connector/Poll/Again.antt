-- ===== src/Connector/Poll/Again.antt =====
-- Two polls in a row (`pollThread` of pkg/connector/handleteams.go): what the first has handed on, the
-- second does not.
use matrix_teams.Prelude.{
  ℕ, ◌+◌, ◌≡◌, refl, ◌∙◌, ap, true, false, Option, none, List, [], ◌∷◌, ◌++◌, append-nil, arith,
  if◌then◌else◌, Text, is_nil, trim_space, Bool-cases, inl, inr, All, select, select_none, map,
  length,
}
use matrix_teams.Model.Message.{RemoteMessage}
use matrix_teams.Connector.Tracker.{Time}
use matrix_teams.Connector.ReadHorizons.{ConsumptionHorizon}
use matrix_teams.Connector.ReadHorizons.Reported.{Reported, unchanged, advanced}
use matrix_teams.Connector.ReadHorizons.Advance.{poll_consumption_horizons-Reported}
use matrix_teams.Connector.Events.{Env, ThreadState, World}
use matrix_teams.Connector.Poll.{
  Loop, listing, start_loop, event_of, poll_messages, poll_listed, poll_thread, update_cursor,
}
use matrix_teams.Connector.Poll.Sync.{messages_of, messages_of-append}
use matrix_teams.Connector.Poll.Ingest.{is_fresh, poll_messages-events}
use matrix_teams.Connector.Poll.Cursor.{
  IsCursor, IsNumbered, passed, next_cursor, IsTrimmed-poll_messages, poll_messages-passed,
}

messages_of-Reported :
    {env : Env} {th : ThreadState} {now : Time} {answer : Option (List ConsumptionHorizon)}
    {w w' : World}
    → Reported env th now answer w w'
    → messages_of w'.queue ≡ messages_of w.queue
messages_of-Reported (unchanged i q h) = ap messages_of q
messages_of-Reported {w = w} (advanced e ts r p b (target, sent, q) s) =
    ap messages_of q
    ∙ messages_of-append w.queue _
    ∙ (unfold messages_of in append-nil (messages_of w.queue))

queue-update_cursor : (th : ThreadState) (l : Loop) → (update_cursor th l).1.queue ≡ l.world.queue
unfolding update_cursor
queue-update_cursor th l = ground arith

-- A poll whose token is valid and whose listing succeeds hands on exactly the fresh messages of the
-- listing, each once and in order, and returns twice their number and no error.
pub poll_thread-events :
    (env : Env) (th : ThreadState) (now : Time) (msgs : List RemoteMessage)
    (answer : Option (List ConsumptionHorizon)) (w : World)
    → (let (result, (th', w')) = poll_thread env th now none (listing msgs) answer w in
        (messages_of w'.queue
          ≡ messages_of w.queue ++ map (event_of env th) (select (is_fresh th) msgs))
        × (result
            ≡ (length (select (is_fresh th) msgs) + length (select (is_fresh th) msgs), none)))
unfolding poll_thread poll_listed
poll_thread-events env th now msgs answer w =
    let l = poll_messages env th msgs (start_loop w) in
    let (events, count) = poll_messages-events env th msgs (start_loop w) in
    (
      messages_of-Reported (
            poll_consumption_horizons-Reported env (update_cursor th l).0 now answer
              (update_cursor th l).1)
          ∙ ap messages_of (queue-update_cursor th l)
          ∙ events,
      ap (λ (n : ℕ). (n, none)) (omega (arith, count)),
    )

-- The row behind a poll of a listing.
abbrev pub row_after : Env → ThreadState → List RemoteMessage → World → ThreadState
row_after env th msgs w = (update_cursor th (poll_messages env th msgs (start_loop w))).0

last_sequence-row_after :
    (env : Env) (th : ThreadState) (msgs : List RemoteMessage) (w : World)
    → (row_after env th msgs w).last_sequence_id ≡ (
        let max_seq = (poll_messages env th msgs (start_loop w)).max_seq in
        if is_nil max_seq then th.last_sequence_id else max_seq)
unfolding update_cursor
last_sequence-row_after env th msgs w = ground arith

module _ (env : Env) (th : ThreadState) (msgs : List RemoteMessage) (w : World) where
  abbrev end_seq : Text
  end_seq = (poll_messages env th msgs (start_loop w)).max_seq

  trim-row_after :
      trim_space (row_after env th msgs w).last_sequence_id ≡ next_cursor env th end_seq
  trim-row_after =
      ap trim_space (last_sequence-row_after env th msgs w) ∙ (elim (Bool-cases (is_nil end_seq)) [
        | inl e ↦ rw e refl
        | inr e ↦
            rw e (IsTrimmed-poll_messages env th msgs (start_loop w) (unfold trim_space in refl))
      ])

  passed-not-fresh :
      (msg : RemoteMessage)
      → passed (next_cursor env th end_seq) msg ≡ true
      → is_fresh (row_after env th msgs w) msg ≡ false
  unfolding is_fresh
  passed-not-fresh msg h = rw trim-row_after (ground arith)

  none_fresh :
      (ms : List RemoteMessage)
      → All (λ m. passed (next_cursor env th end_seq) m ≡ true) ms
      → All (λ m. is_fresh (row_after env th msgs w) m ≡ false) ms
  none_fresh [] h = tt
  none_fresh (m ∷ ms) (h, hs) = (passed-not-fresh m h, none_fresh ms hs)

  pub select-row_after :
      All IsNumbered msgs
      → IsCursor (trim_space th.last_sequence_id)
      → select (is_fresh (row_after env th msgs w)) msgs ≡ []
  select-row_after h c =
      select_none (is_fresh (row_after env th msgs w)) msgs
        (none_fresh msgs (poll_messages-passed env th msgs (start_loop w) h c refl))

-- Where every sequence identifier is a number below 2^64, and the cursor is one or empty, a second
-- poll of the same listing, from the row and the state that the first left, hands no message on and
-- counts none.
pub poll_again :
    (env : Env) (th : ThreadState) (now later : Time) (msgs : List RemoteMessage)
    (answer answer' : Option (List ConsumptionHorizon)) (w : World)
    → All IsNumbered msgs
    → IsCursor (trim_space th.last_sequence_id)
    → (let first = poll_thread env th now none (listing msgs) answer w in
        let second = poll_thread env first.1.0 later none (listing msgs) answer' first.1.1 in
        (messages_of second.1.1.queue ≡ messages_of first.1.1.queue) × (second.0 ≡ (0, none)))
unfolding poll_thread poll_listed
poll_again env th now later msgs answer answer' w h c =
    let first = poll_thread env th now none (listing msgs) answer w in
    let (events, result) = poll_thread-events env first.1.0 later msgs answer' first.1.1 in
    let quiet = select-row_after env th msgs w h c in
    (
      events
          ∙ ap (λ ms. messages_of first.1.1.queue ++ map (event_of env first.1.0) ms) quiet
          ∙ append-nil (messages_of first.1.1.queue),
      result ∙ ap (λ (ms : List RemoteMessage). (length ms + length ms, none)) quiet,
    )
