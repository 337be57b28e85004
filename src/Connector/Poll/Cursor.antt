-- ===== src/Connector/Poll/Cursor.antt =====
-- How the cursor of a thread moves in a poll (pkg/connector/handleteams.go).
use matrix_teams.Prelude.{
  ℕ, ◌+◌, ◌≤◌, ◌<◌, ◌≡◌, refl, ◌∙◌, ap, Bool, true, false, not, ◌||◌, none, some, List, [], ◌∷◌,
  arith, if◌then◌else◌, Text, is_nil, trim_space, IsTrimmed, trim_space-IsTrimmed, ◌==◌, Bool-cases,
  inl, inr, ◌⊎◌, leb, max, All,
}
use matrix_teams.Go.Strconv.{parse_uint}
use matrix_teams.Model.Sequence.Order.{compare_numbers}
use matrix_teams.Model.Message.{RemoteMessage}
use matrix_teams.Connector.Events.{Env, ThreadState}
use matrix_teams.Connector.Poll.{Loop, seq_le, is_seen, poll_message, poll_messages, advance}

-- A sequence identifier that is the number n.
abbrev pub IsNumber : Text → ℕ → Type 0
IsNumber seq n = parse_uint seq ≡ some n

seq_le_lem : (a b : Text) (m n : ℕ) → IsNumber a m → IsNumber b n → seq_le a b ≡ leb m n
seq_le_lem a b m n p q = ground (arith, compare_numbers a b m n p q)

number-ne-nil : (a : Text) (m : ℕ) → IsNumber a m → is_nil a ≡ false
number-ne-nil [] m h = absurd (unfold parse_uint in cc)
number-ne-nil (c ∷ a) m h = refl

-- A cursor is empty or a number. Its rank is 0, or one more than the number.
abbrev pub IsCursor : Text → Type 0
IsCursor seq = (seq ≡ []) ⊎ ((n : ℕ) × IsNumber seq n)

pub rank : Text → ℕ
rank seq = elim (parse_uint seq) [ none ↦ 0 | some n ↦ n + 1 ]

rank-nil : rank [] ≡ 0
unfolding rank parse_uint
rank-nil = refl

rank-number : (seq : Text) (n : ℕ) → IsNumber seq n → rank seq ≡ n + 1
unfolding rank
rank-number seq n h = rw (h, rank)

-- A message with a number is seen where its rank does not exceed the cursor's.
is_seen-rank :
    (cursor : Text) (msg : RemoteMessage) (n : ℕ)
    → IsCursor cursor
    → IsNumber (trim_space msg.sequence_id) n
    → is_seen cursor msg ≡ leb (n + 1) (rank cursor)
unfolding is_seen
is_seen-rank cursor msg n (inl e) h = rw (e, rank-nil) (ground arith)
is_seen-rank cursor msg n (inr (k, num)) h =
    rw (number-ne-nil cursor k num, seq_le_lem _ cursor n k h num, rank-number cursor k num)
      (ground arith)

advance-IsCursor :
    (msg : RemoteMessage) (n : ℕ) (l : Loop)
    → IsNumber (trim_space msg.sequence_id) n
    → IsCursor l.max_seq
    → IsCursor (advance msg l).max_seq
unfolding advance
advance-IsCursor msg n l h c =
    elim (Bool-cases (is_nil l.max_seq || not (seq_le (trim_space msg.sequence_id) l.max_seq))) [
      | inl e ↦ rw e (inr (n, h))
      | inr e ↦ rw e c
    ]

rank-advance :
    (msg : RemoteMessage) (n : ℕ) (l : Loop)
    → IsNumber (trim_space msg.sequence_id) n
    → IsCursor l.max_seq
    → rank (advance msg l).max_seq ≡ max (rank l.max_seq) (n + 1)
unfolding advance
rank-advance msg n l h (inl e) = rw (e, rank-nil) (rank-number _ n h ∙ omega arith)
rank-advance msg n l h (inr (k, num)) =
    rw (number-ne-nil l.max_seq k num, seq_le_lem _ l.max_seq n k h num)
      (ground (arith, rank-number l.max_seq k num, rank-number (trim_space msg.sequence_id) n h))

abbrev pub IsNumbered : RemoteMessage → Type 0
IsNumbered msg = (n : ℕ) × IsNumber (trim_space msg.sequence_id) n

-- A message that the loop passes over: without an identifier, or seen.
abbrev pub passed : Text → RemoteMessage → Bool
passed cursor msg = is_nil (trim_space msg.message_id) || is_seen cursor msg

module _ (env : Env) (th : ThreadState) where
  max_seq-poll_message :
      (msg : RemoteMessage) (l : Loop)
      → (poll_message env th msg l).max_seq ≡ (
          if passed (trim_space th.last_sequence_id) msg
          then l.max_seq
          else (advance msg l).max_seq)
  unfolding poll_message
  max_seq-poll_message msg l = ground arith

  IsCursor-poll_message :
      (msg : RemoteMessage) (l : Loop)
      → IsNumbered msg
      → IsCursor l.max_seq
      → IsCursor (poll_message env th msg l).max_seq
  IsCursor-poll_message msg l (n, h) c =
      elim (Bool-cases (passed (trim_space th.last_sequence_id) msg)) [
        | inl e ↦ rw (max_seq-poll_message msg l, e) c
        | inr e ↦ rw (max_seq-poll_message msg l, e) (advance-IsCursor msg n l h c)
      ]

  rank-poll_message :
      (msg : RemoteMessage) (l : Loop) (n : ℕ)
      → IsNumber (trim_space msg.sequence_id) n
      → IsCursor l.max_seq
      → rank (poll_message env th msg l).max_seq ≡ (
          if passed (trim_space th.last_sequence_id) msg
          then rank l.max_seq
          else max (rank l.max_seq) (n + 1))
  rank-poll_message msg l n h c = elim (Bool-cases (passed (trim_space th.last_sequence_id) msg)) [
    | inl e ↦ rw (max_seq-poll_message msg l, e) refl
    | inr e ↦ rw (max_seq-poll_message msg l, e) (rank-advance msg n l h c)
  ]

  IsCursor-poll_messages :
      (msgs : List RemoteMessage) (l : Loop)
      → All IsNumbered msgs
      → IsCursor l.max_seq
      → IsCursor (poll_messages env th msgs l).max_seq
  unfolding poll_messages
  IsCursor-poll_messages [] l h c = c
  IsCursor-poll_messages (msg ∷ msgs) l (h, hs) c =
      IsCursor-poll_messages msgs (poll_message env th msg l) hs (IsCursor-poll_message msg l h c)

  rank_grows :
      (msgs : List RemoteMessage) (l : Loop)
      → All IsNumbered msgs
      → IsCursor l.max_seq
      → rank l.max_seq ≤ rank (poll_messages env th msgs l).max_seq
  unfolding poll_messages
  rank_grows [] l h c = omega arith
  rank_grows (msg ∷ msgs) l ((n, h), hs) c =
      let later =
        rank_grows msgs (poll_message env th msg l) hs (IsCursor-poll_message msg l (n, h) c) in
      ground (arith, rank-poll_message msg l n h c, later)

  -- The cursor stays, or moves past where the poll began.
  rank_ahead :
      (msgs : List RemoteMessage) (l : Loop)
      → All IsNumbered msgs
      → IsCursor (trim_space th.last_sequence_id)
      → IsCursor l.max_seq
      → (rank l.max_seq ≡ 0) ⊎ (rank (trim_space th.last_sequence_id) < rank l.max_seq)
      → (let end = rank (poll_messages env th msgs l).max_seq in
          (end ≡ 0) ⊎ (rank (trim_space th.last_sequence_id) < end))
  unfolding poll_messages
  rank_ahead [] l h c0 c ahead = ahead
  rank_ahead (msg ∷ msgs) l ((n, h), hs) c0 c ahead =
      rank_ahead msgs (poll_message env th msg l) hs c0 (IsCursor-poll_message msg l (n, h) c) (
        ground (
          arith,
          rank-poll_message msg l n h c,
          is_seen-rank (trim_space th.last_sequence_id) msg n c0 h,
        ))

  -- What was not passed over is covered by the cursor at the end.
  covered :
      (msgs : List RemoteMessage) (l : Loop)
      → All IsNumbered msgs
      → IsCursor l.max_seq
      → All
          (λ m.
            passed (trim_space th.last_sequence_id) m ≡ false
            → rank (trim_space m.sequence_id) ≤ rank (poll_messages env th msgs l).max_seq)
          msgs
  unfolding poll_messages
  covered [] l h c = tt
  covered (msg ∷ msgs) l ((n, h), hs) c =
      let c' = IsCursor-poll_message msg l (n, h) c in
      let later = rank_grows msgs (poll_message env th msg l) hs c' in
      (
        (λ fresh. ground (
          arith,
          rank-poll_message msg l n h c,
          later,
          rank-number (trim_space msg.sequence_id) n h,
        )),
        covered msgs (poll_message env th msg l) hs c',
      )

  IsTrimmed-poll_message :
      (msg : RemoteMessage) (l : Loop)
      → IsTrimmed l.max_seq
      → IsTrimmed (poll_message env th msg l).max_seq
  unfolding advance
  IsTrimmed-poll_message msg l h =
      rw (max_seq-poll_message msg l)
        (elim (Bool-cases (passed (trim_space th.last_sequence_id) msg)) [
          | inl e ↦ rw e h
          | inr e ↦
              rw e
                (elim (Bool-cases
                  (is_nil l.max_seq || not (seq_le (trim_space msg.sequence_id) l.max_seq))) [
                    | inl a ↦ rw a (trim_space-IsTrimmed msg.sequence_id)
                    | inr a ↦ rw a h
                  ])
        ])

  pub IsTrimmed-poll_messages :
      (msgs : List RemoteMessage) (l : Loop)
      → IsTrimmed l.max_seq
      → IsTrimmed (poll_messages env th msgs l).max_seq
  unfolding poll_messages
  IsTrimmed-poll_messages [] l h = h
  IsTrimmed-poll_messages (msg ∷ msgs) l h =
      IsTrimmed-poll_messages msgs (poll_message env th msg l) (IsTrimmed-poll_message msg l h)

  -- The cursor that the next poll reads.
  abbrev pub next_cursor : Text → Text
  next_cursor max_seq = if is_nil max_seq then trim_space th.last_sequence_id else max_seq

  rank-next_cursor :
      (max_seq : Text)
      → IsCursor max_seq
      → rank (next_cursor max_seq)
        ≡ (if rank max_seq == 0 then rank (trim_space th.last_sequence_id) else rank max_seq)
  rank-next_cursor max_seq (inl e) = rw (e, rank-nil) refl
  rank-next_cursor max_seq (inr (n, num)) =
      rw (number-ne-nil max_seq n num, rank-number max_seq n num) (ground arith)

  IsCursor-next_cursor :
      (max_seq : Text)
      → IsCursor (trim_space th.last_sequence_id)
      → IsCursor max_seq
      → IsCursor (next_cursor max_seq)
  IsCursor-next_cursor max_seq c0 (inl e) = rw e c0
  IsCursor-next_cursor max_seq c0 (inr (n, num)) = rw (number-ne-nil max_seq n num) (inr (n, num))

  -- A message is seen by the next cursor, if the loop covered it or passed it over.
  seen_next :
      (max_seq : Text) (msg : RemoteMessage)
      → IsNumbered msg
      → IsCursor (trim_space th.last_sequence_id)
      → IsCursor max_seq
      → (rank max_seq ≡ 0) ⊎ (rank (trim_space th.last_sequence_id) < rank max_seq)
      → (passed (trim_space th.last_sequence_id) msg ≡ false
          → rank (trim_space msg.sequence_id) ≤ rank max_seq)
      → passed (next_cursor max_seq) msg ≡ true
  seen_next max_seq msg (n, h) c0 c ahead cover =
      let r = rank-number (trim_space msg.sequence_id) n h in
      let before = is_seen-rank (trim_space th.last_sequence_id) msg n c0 h in
      let after = is_seen-rank (next_cursor max_seq) msg n (IsCursor-next_cursor max_seq c0 c) h in
      ground (arith, r, before, after, rank-next_cursor max_seq c)

  All-seen_next :
      (max_seq : Text) (msgs : List RemoteMessage)
      → All IsNumbered msgs
      → IsCursor (trim_space th.last_sequence_id)
      → IsCursor max_seq
      → (rank max_seq ≡ 0) ⊎ (rank (trim_space th.last_sequence_id) < rank max_seq)
      → All
          (λ m.
            passed (trim_space th.last_sequence_id) m ≡ false
            → rank (trim_space m.sequence_id) ≤ rank max_seq)
          msgs
      → All (λ m. passed (next_cursor max_seq) m ≡ true) msgs
  All-seen_next max_seq [] h c0 c ahead cover = tt
  All-seen_next max_seq (msg ∷ msgs) (h, hs) c0 c ahead (k, ks) =
      (seen_next max_seq msg h c0 c ahead k, All-seen_next max_seq msgs hs c0 c ahead ks)

  -- After the loop of a poll, every message of its listing is seen by the next cursor or has no
  -- identifier.
  pub poll_messages-passed :
      (msgs : List RemoteMessage) (l : Loop)
      → All IsNumbered msgs
      → IsCursor (trim_space th.last_sequence_id)
      → l.max_seq ≡ []
      → All (λ m. passed (next_cursor (poll_messages env th msgs l).max_seq) m ≡ true) msgs
  poll_messages-passed msgs l h c0 start =
      let c : IsCursor l.max_seq = inl start in
      let zero_rank : rank l.max_seq ≡ 0 = ap rank start ∙ rank-nil in
      All-seen_next (poll_messages env th msgs l).max_seq msgs h c0
        (IsCursor-poll_messages msgs l h c) (rank_ahead msgs l h c0 c (inl zero_rank))
        (covered msgs l h c)
