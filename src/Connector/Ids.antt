-- ===== src/Connector/Ids.antt =====
-- Identifiers: pkg/connector/id.go, NormalizeTeamsReactionMessageID of reactions.go, and the
-- candidates for the target of a reaction in handleteams.go.
use matrix_teams.Prelude.{
  Bool, false, ◌||◌, List, [], ◌∷◌, ◌++◌, if◌then◌else◌, is_nil, Text, codes, text_eq, trim_space,
  has_prefix, trim_prefix, contains, to_lower,
}
use matrix_teams.Model.Message.{RemoteMessage}

-- isLikelyThreadID
unfoldable pub is_likely_thread_id : Text → Bool
unfolding contains to_lower trim_space
is_likely_thread_id value =
    let normalized = to_lower (trim_space value) in
    if is_nil normalized
    then false
    else contains normalized (codes "@thread.v2")
      || contains normalized (codes "@thread.skype")
      || contains normalized (codes "@unq.gbl.spaces")

-- NormalizeTeamsReactionMessageID
unfoldable pub normalize_teams_reaction_message_id : Text → Text
unfolding trim_prefix has_prefix
normalize_teams_reaction_message_id raw =
    let value = trim_space raw in
    if is_nil value
    then []
    else if has_prefix value (codes "msg/")
    then trim_prefix value (codes "msg/")
    else value

-- effectiveRemoteMessageID
pub effective_remote_message_id : RemoteMessage → Text
effective_remote_message_id msg =
    let id = normalize_teams_reaction_message_id msg.message_id in
    if is_nil id then normalize_teams_reaction_message_id msg.sequence_id else id

mem : Text → List Text → Bool
mem value [] = false
mem value (c ∷ candidates) = text_eq c value || mem value candidates

-- The two closures of buildReactionTargetMessageIDCandidates, each from the list so far to the next.
add_candidate : Text → List Text → List Text
unfolding mem
add_candidate raw candidates =
    let value = trim_space raw in
    if is_nil value
    then candidates
    else if mem value candidates
    then candidates
    else candidates ++ (value ∷ [])

add_canonical_and_legacy : Text → List Text → List Text
unfolding add_candidate
add_canonical_and_legacy raw candidates =
    let value = trim_space raw in
    let normalized = normalize_teams_reaction_message_id value in
    let canonical = add_candidate normalized candidates in
    if is_nil value
    then candidates
    else if is_nil normalized
    then canonical
    else add_candidate (codes "msg/" ++ normalized) canonical

-- buildReactionTargetMessageIDCandidates
pub build_reaction_target_message_id_candidates : Text → RemoteMessage → List Text
unfolding add_canonical_and_legacy
build_reaction_target_message_id_candidates message_id msg =
    add_canonical_and_legacy msg.client_message_id (
      add_canonical_and_legacy msg.sequence_id
        (add_canonical_and_legacy msg.message_id (add_canonical_and_legacy message_id [])))
