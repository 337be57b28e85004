-- ===== src/Connector/ReactionSync.antt =====
-- `queueReactionSyncForMessage` of pkg/connector/handleteams.go and what it calls: the reactions of a
-- message, by user, as one event.
pub mod Queue
use matrix_teams.Prelude.{
  Bool, true, false, not, ◌==◌, ◌&&◌, ◌||◌, Option, none, some, List, [], ◌∷◌, ◌++◌, if◌then◌else◌,
  ℤ, pos, negsuc, Text, text_eq, is_nil, is_some, trim_space, lookup, insert,
}
use matrix_teams.Model.Message.{
  RemoteMessage, MessageReaction, MessageReactionUser, normalize_teams_user_id,
}
use matrix_teams.Connector.Tracker.{mark_reaction_seen}
use matrix_teams.Connector.Ids.{
  is_likely_thread_id, effective_remote_message_id, build_reaction_target_message_id_candidates,
}
use matrix_teams.Connector.Reactions.{map_emotion_key_to_emoji}
use matrix_teams.Connector.Events.{
  EventSender, BackfillReaction, RemoteEvent, reaction_sync, Env, ThreadState, World, portal_key,
  enqueue,
}

abbrev pub Users : Type 0
Users = List (Text × List BackfillReaction)

abbrev pub self_id : Env → Text
self_id env = normalize_teams_user_id env.teams_user_id

abbrev or_empty : Option (List BackfillReaction) → List BackfillReaction
or_empty none = []
or_empty (some rs) = rs

nonzero : ℤ → Option ℤ
nonzero (pos n) = if n == 0 then none else some (pos n)
nonzero (negsuc n) = some (negsuc n)

-- One user of one reaction: users[sender].Reactions = append(…).
add_user : Env → Text → Text → Users → MessageReactionUser → Users
unfolding nonzero
add_user env emotion_key emoji users user =
    let user_id = normalize_teams_user_id user.mri in
    let self = not (is_nil (self_id env)) && text_eq user_id (self_id env) in
    let reaction : BackfillReaction = record {
      sender = record {
        sender = trim_space user_id;
        is_from_me = self;
        sender_login = if self then env.login_id else [];
      };
      emoji_id = emotion_key;
      emoji = emoji;
      timestamp = nonzero user.time_ms;
    } in
    if is_nil user_id || is_likely_thread_id user_id
    then users
    else insert users (trim_space user_id)
        (or_empty (lookup users (trim_space user_id)) ++ (reaction ∷ []))

add_users : Env → Text → Text → Users → List MessageReactionUser → Users
unfolding add_user
add_users env key emoji users [] = users
add_users env key emoji users (u ∷ us) = add_users env key emoji (add_user env key emoji users u) us

with_emoji : Env → Text → Users → List MessageReactionUser → Option Text → Users
unfolding add_users
with_emoji env key users us none = users
with_emoji env key users us (some emoji) = add_users env key emoji users us

add_reaction : Env → Users → MessageReaction → Users
unfolding with_emoji
add_reaction env users r =
    let key = trim_space r.emotion_key in
    if is_nil key
    then users
    else with_emoji env key users r.users (map_emotion_key_to_emoji env.visited key)

add_reactions : Env → Users → List MessageReaction → Users
unfolding add_reaction
add_reactions env users [] = users
add_reactions env users (r ∷ rs) = add_reactions env (add_reaction env users r) rs

-- buildReactionSyncData: an empty map of users stands for the result `(nil, false)`, which the caller
-- replaces by an empty map.
pub build_reaction_sync_data : Env → List MessageReaction → Users
unfolding add_reactions
build_reaction_sync_data env reactions = add_reactions env [] reactions

-- shouldSendEmptyReactionSync, with the tracker that it leaves
pub should_send_empty_reaction_sync : Env → Text → World → Bool × World
should_send_empty_reaction_sync env message_id w =
    let (seen, tracker') = mark_reaction_seen message_id false w.tracker in
    (seen || env.has_reactions message_id, record w { tracker = tracker' })

first_stored : (Text → Bool) → Text → List Text → Text
first_stored is_stored default [] = default
first_stored is_stored default (c ∷ cs) =
    let later = first_stored is_stored default cs in if is_stored c then c else later

resolve : (Text → Bool) → List Text → Text
unfolding first_stored
resolve is_stored [] = []
resolve is_stored (c ∷ cs) = first_stored is_stored c (c ∷ cs)

-- resolveReactionSyncTargetMessageID
pub resolve_target : Env → Text → RemoteMessage → Text
unfolding resolve
resolve_target env message_id msg =
    resolve env.is_stored (build_reaction_target_message_id_candidates message_id msg)

pub sync_message_id : Text → RemoteMessage → Text
sync_message_id message_id msg =
    if is_nil (trim_space message_id)
    then effective_remote_message_id msg
    else trim_space message_id

-- queueReactionSyncForMessage
pub queue_reaction_sync : Env → ThreadState → RemoteMessage → Text → World → World
queue_reaction_sync env th msg message_id w =
    let id = sync_message_id message_id msg in
    let target = resolve_target env id msg in
    let users = build_reaction_sync_data env msg.reactions in
    let event = reaction_sync (portal_key env th.thread_id) msg.timestamp target users in
    let (wanted, w') = should_send_empty_reaction_sync env target w in
    if is_nil id
    then w
    else if not (is_nil users)
    then enqueue event w
    else if wanted
    then enqueue event w'
    else w'
