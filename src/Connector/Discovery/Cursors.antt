-- ===== src/Connector/Discovery/Cursors.antt =====
-- What a discovery of threads leaves of the table.
use matrix_teams.Prelude.{
  ◌≡◌, refl, ◌∙◌, ◌||◌, Option, none, some, List, [], ◌∷◌, inl, inr, is_nil, trim_space, Text, ℤ,
  text_eq, text_eq_iff, lookup, lookup-insert, Bool-cases, ap,
}
use matrix_teams.Model.Conversation.{RemoteConversation, Thread, normalize_for_self}
use matrix_teams.Connector.Events.{Env, ThreadState}
use matrix_teams.Connector.Discovery.{
  Rooms, merge_row, upsert, add_thread, new_row, refresh_threads,
}

-- There is a row for the thread, with the cursor of the given row.
abbrev pub HasCursor : List (Text × ThreadState) → Text → Text → ℤ → Type 0
HasCursor rows id seq ts =
    (row : ThreadState) × (lookup rows id ≡ some row)
    × (row.last_sequence_id ≡ seq)
    × (row.last_message_ts ≡ ts)

merge_row_cursor :
    (st row : ThreadState) (rows : List (Text × ThreadState)) (id : Text)
    → lookup rows id ≡ some row
    → ((merge_row st (lookup rows id)).last_sequence_id ≡ row.last_sequence_id)
      × ((merge_row st (lookup rows id)).last_message_ts ≡ row.last_message_ts)
unfolding merge_row
merge_row_cursor st row rows id h = rw h (refl, refl)

upsert-HasCursor :
    (state : ThreadState) (rows : List (Text × ThreadState)) (id seq : Text) (ts : ℤ)
    → HasCursor rows id seq ts
    → HasCursor (upsert state rows) id seq ts
unfolding upsert
upsert-HasCursor state rows id seq ts (row, found, p, q) =
    let key = trim_space state.thread_id in
    let st = record state { thread_id = key; conversation = trim_space state.conversation } in
    elim (Bool-cases (is_nil key || is_nil (trim_space state.conversation))) [
      | inl e ↦ rw e (row, found, p, q)
      | inr e ↦ elim (Bool-cases (text_eq key id)) [
        | inr n ↦
            rw e
              (row, rw (lookup-insert rows key id (merge_row st (lookup rows key)), n) found, p, q)
        | inl y ↦
            let same : lookup rows key ≡ some row =
              ap (λ k. lookup rows k) ((text_eq_iff key id).0 y) ∙ found in
            let (p', q') = merge_row_cursor st row rows key same in
            rw e (
              merge_row st (lookup rows key),
              rw (lookup-insert rows key id (merge_row st (lookup rows key)), y) refl,
              p' ∙ p,
              q' ∙ q,
            )
      ]
    ]

add_thread-HasCursor :
    (env : Env) (t : Option Thread) (r : Rooms) (id seq : Text) (ts : ℤ)
    → HasCursor r.rows id seq ts
    → HasCursor (add_thread env t r).rows id seq ts
unfolding add_thread
add_thread-HasCursor env none r id seq ts h = h
add_thread-HasCursor env (some t) r id seq ts h =
    elim (Bool-cases (is_nil (trim_space t.id) || is_nil (trim_space t.conversation_id))) [
      | inl e ↦ rw e h
      | inr e ↦ rw e (upsert-HasCursor (new_row t) r.rows id seq ts h)
    ]

-- A discovery loses no row of the table and moves no cursor, whatever conversations it lists.
pub refresh_threads-HasCursor :
    (env : Env) (cs : List RemoteConversation) (r : Rooms) (id seq : Text) (ts : ℤ)
    → HasCursor r.rows id seq ts
    → HasCursor (refresh_threads env cs r).rows id seq ts
unfolding refresh_threads
refresh_threads-HasCursor env [] r id seq ts h = h
refresh_threads-HasCursor env (c ∷ cs) r id seq ts h =
    refresh_threads-HasCursor env cs (add_thread env (normalize_for_self c env.teams_user_id) r) id
      seq ts (add_thread-HasCursor env (normalize_for_self c env.teams_user_id) r id seq ts h)
