-- ===== src/Model/Conversation/Examples.antt =====
-- A chat of two, one of them by a prefixed identifier.
use matrix_teams.Prelude.{
  ◌≡◌, refl, ◌&&◌, true, false, none, [], ◌∷◌, codes, is_nil, trim_space, Text, equal_fold,
  has_prefix, contains, lookup, insert,
}
use matrix_teams.Model.Conversation.{
  ConversationMember, RemoteConversation, everyone, resolve_thread_name, resolve_dm_name,
  collect_self_display_names, normalize_participant_id, is_likely_one_to_one, is_skipped,
  is_explicit_self_member, member_id, is_likely_teams_bot_id, member_name, has_self_name, other_key,
  behind_prefix,
}
use matrix_teams.Model.Conversation.Members.{normalize_participant_id_complete}
use matrix_teams.Model.Conversation.Names.{
  is_likely_one_to_one_lem, resolve_dm_name_lem, one_key, other_keys, named_others, fresh,
  head_name,
}

abbrev member : Text → Text → ConversationMember
member id name = record {
  id = id;
  mri = [];
  display_name = name;
  name = [];
  is_self = false;
  is_current_user = false;
}

abbrev chat : RemoteConversation
chat = record {
  id = codes "19:1@thread.v2";
  thread_properties = record {
    original_thread_id = codes "19:1@thread.v2";
    product_thread_type = [];
    created_at = [];
    is_creator = false;
    topic = [];
    thread_topic = [];
    title = [];
    display_name = [];
    name = [];
  };
  topic = [];
  title = [];
  display_name = [];
  name = [];
  properties = record { topic = []; thread_topic = []; title = []; display_name = []; name = [] };
  members =
      member (codes "8:live:ann") (codes "Ann") ∷ member (codes "8:live:bob") (codes "Bob") ∷ [];
  participants =
      member (codes "live:bob") (codes "Bob") ∷ member (codes "28:bot") (codes "Bot") ∷ [];
  consumers = [];
}

test_bob : resolve_dm_name chat (codes "live:ann") ≡ codes "Bob"
unfolding resolve_dm_name is_likely_one_to_one everyone is_skipped is_explicit_self_member
    trim_space member_id equal_fold normalize_participant_id behind_prefix is_likely_teams_bot_id
    has_prefix contains member_name has_self_name lookup collect_self_display_names insert
    resolve_thread_name other_key
test_bob = refl

test_one_to_one : is_likely_one_to_one chat (codes "live:ann") ≡ true
unfolding resolve_dm_name is_likely_one_to_one everyone is_skipped is_explicit_self_member
    trim_space member_id equal_fold normalize_participant_id behind_prefix is_likely_teams_bot_id
    has_prefix contains member_name has_self_name lookup collect_self_display_names insert
    resolve_thread_name other_key
test_one_to_one = refl

test_normalize_participant_id_complete :
    behind_prefix 0 (normalize_participant_id (codes "8:28:live:Ann")) ≡ none
test_normalize_participant_id_complete = normalize_participant_id_complete (codes "8:28:live:Ann")

is_likely_one_to_one_lem_example :
    (let self_id = trim_space (codes "ann") in
      let self_norm = normalize_participant_id self_id in
      let names = collect_self_display_names chat self_id self_norm in
      is_likely_one_to_one chat (codes "ann") ≡ (
        is_nil (resolve_thread_name chat)
        && one_key (other_keys self_id self_norm names (everyone chat))))
is_likely_one_to_one_lem_example = is_likely_one_to_one_lem chat (codes "ann")

resolve_dm_name_lem_example :
    (let self_id = trim_space (codes "ann") in
      let self_norm = normalize_participant_id self_id in
      let names = collect_self_display_names chat self_id self_norm in
      let others = named_others self_id self_norm names (everyone chat) in
      resolve_dm_name chat (codes "ann")
      ≡ head_name (fresh self_id self_norm names others) (head_name others []))
resolve_dm_name_lem_example = resolve_dm_name_lem chat (codes "ann")
