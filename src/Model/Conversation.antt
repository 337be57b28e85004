-- ===== src/Model/Conversation.antt =====
-- internal/teams/model/conversation.go: a conversation of the API becomes a thread, with its kind and
-- the name of its room.
pub mod Members
pub mod Names
mod Examples
use matrix_teams.Prelude.{
  ℕ, zero, suc, ◌≤◌, ◌≡◌, Bool, true, false, not, ◌&&◌, ◌||◌, Option, none, some, List, [], ◌∷◌,
  ◌++◌, ltb, leb, ◌==◌, if◌then◌else◌, length, is_nil, is_some, all, Text, codes, text_eq,
  trim_space, has_prefix, contains, to_lower, equal_fold, lookup, insert,
}

pub record ThreadProperties : Type 0 where
  pub original_thread_id : Text
  pub product_thread_type : Text
  pub created_at : Text
  pub is_creator : Bool
  pub topic : Text
  pub thread_topic : Text
  pub title : Text
  pub display_name : Text
  pub name : Text

pub record ConversationMember : Type 0 where
  pub id : Text
  pub mri : Text
  pub display_name : Text
  pub name : Text
  pub is_self : Bool
  pub is_current_user : Bool

pub record ConversationProperties : Type 0 where
  pub topic : Text
  pub thread_topic : Text
  pub title : Text
  pub display_name : Text
  pub name : Text

pub record RemoteConversation : Type 0 where
  pub id : Text
  pub thread_properties : ThreadProperties
  pub topic : Text
  pub title : Text
  pub display_name : Text
  pub name : Text
  pub properties : ConversationProperties
  pub members : List ConversationMember
  pub participants : List ConversationMember
  pub consumers : List ConversationMember

pub record Thread : Type 0 where
  pub id : Text
  pub conversation_id : Text
  pub kind : Text
  pub created_at_raw : Text
  pub is_creator : Bool
  pub is_one_to_one : Bool
  pub room_name : Text

abbrev pub default_room_name : Text
default_room_name = codes "Chat"

-- The three lists of members, in the order in which the code visits them.
pub everyone : RemoteConversation → List ConversationMember
everyone c = c.members ++ c.participants ++ c.consumers

pub member_id : ConversationMember → Text
member_id m = if is_nil (trim_space m.id) then trim_space m.mri else trim_space m.id

pub member_name : ConversationMember → Text
member_name m =
    if is_nil (trim_space m.display_name) then trim_space m.name else trim_space m.display_name

-- The text behind a prefix of digits and its colon, if there is a prefix and something behind it;
-- the number counts the digits read.
pub behind_prefix : ℕ → Text → Option Text
behind_prefix n [] = none
behind_prefix n (c ∷ id) =
    let rest = behind_prefix (suc n) id in
    if c == b':'
    then (if n == 0 || is_nil id then none else some id)
    else if leb b'0' c && leb c b'9'
    then rest
    else none

-- The loop of normalizeParticipantID, on fuel; each round leaves at least two bytes behind.
pub go_on : (Text → Text) → Text → Option Text → Text
go_on again id none = id
go_on again id (some rest) = again rest

pub strip_prefixes : ℕ → Text → Text
unfolding go_on
strip_prefixes zero id = id
strip_prefixes (suc fuel) id = go_on (strip_prefixes fuel) id (behind_prefix 0 id)

pub normalize_participant_id : Text → Text
unfolding strip_prefixes
normalize_participant_id raw = let id = to_lower (trim_space raw) in strip_prefixes (length id) id

pub is_likely_teams_bot_id : Text → Bool
is_likely_teams_bot_id raw =
    let id = trim_space (to_lower raw) in
    not (is_nil id) && (has_prefix id (codes "28:") || contains id (codes "teamsbot"))

pub is_explicit_self_member : ConversationMember → Text → Text → Text → Bool
is_explicit_self_member m id self_id self_norm =
    m.is_self
    || m.is_current_user
    || (not (is_nil self_id) && not (is_nil id) && equal_fold id self_id)
    || (not (is_nil self_norm) && text_eq (normalize_participant_id id) self_norm)

-- A map[string]struct{}.
abbrev pub Names : Type 0
Names = List (Text × Unit {0})

collect_names : Text → Text → Names → List ConversationMember → Names
collect_names self_id self_norm names [] = names
collect_names self_id self_norm names (m ∷ ms) =
    collect_names self_id self_norm
      (if is_explicit_self_member m (member_id m) self_id self_norm && not (is_nil (member_name m))
        then insert names (to_lower (member_name m)) tt
        else names)
      ms

pub collect_self_display_names : RemoteConversation → Text → Text → Names
unfolding collect_names
collect_self_display_names c self_id self_norm = collect_names self_id self_norm [] (everyone c)

-- Whether the loops of both resolutions pass a member by before they look at its name.
pub is_skipped : Text → Text → ConversationMember → Bool
is_skipped self_id self_norm m =
    is_explicit_self_member m (member_id m) self_id self_norm
    || is_likely_teams_bot_id (member_id m)

pub has_self_name : Names → ConversationMember → Bool
has_self_name names m = is_some (lookup names (to_lower (member_name m)))

-- The loop of resolveDMName.
pub first_other : Text → Text → Names → Text → List ConversationMember → Text
first_other self_id self_norm names fallback [] = fallback
first_other self_id self_norm names fallback (m ∷ ms) =
    let name = member_name m in
    let kept = if is_nil fallback then name else fallback in
    let skipped = first_other self_id self_norm names fallback ms in
    let rest = first_other self_id self_norm names kept ms in
    if is_skipped self_id self_norm m || is_nil name
    then skipped
    else if has_self_name names m
    then rest
    else name

pub resolve_dm_name : RemoteConversation → Text → Text
unfolding first_other
resolve_dm_name c self_user_id =
    let self_id = trim_space self_user_id in
    let self_norm = normalize_participant_id self_id in
    first_other self_id self_norm (collect_self_display_names c self_id self_norm) [] (everyone c)

pub first_name : List Text → Text
first_name [] = []
first_name (t ∷ ts) =
    let rest = first_name ts in if is_nil (trim_space t) then rest else trim_space t

pub name_candidates : RemoteConversation → List Text
name_candidates c =
    c.thread_properties.topic ∷ c.thread_properties.thread_topic ∷ c.thread_properties.title
    ∷ c.thread_properties.display_name ∷ c.thread_properties.name ∷ c.properties.topic
    ∷ c.properties.thread_topic ∷ c.properties.title ∷ c.properties.display_name ∷ c.properties.name
    ∷ c.topic ∷ c.title ∷ c.display_name ∷ c.name ∷ []

pub resolve_thread_name : RemoteConversation → Text
unfolding first_name name_candidates
resolve_thread_name c = first_name (name_candidates c)

-- The key by which a member counts as another, empty for one that does not count.
pub other_key : Text → Text → Names → ConversationMember → Text
other_key self_id self_norm names m =
    let key = normalize_participant_id (member_id m) in
    if is_skipped self_id self_norm m
    then []
    else if not (is_nil (member_name m)) && has_self_name names m
    then []
    else if is_nil key
    then to_lower (member_name m)
    else key

-- The loop of isLikelyOneToOne: `others` holds at most one key when it goes on.
pub only_one : Text → Text → Names → Names → List ConversationMember → Bool
only_one self_id self_norm names others [] = length others == 1
only_one self_id self_norm names others (m ∷ ms) =
    let key = other_key self_id self_norm names m in
    let others' = insert others key tt in
    let passed = only_one self_id self_norm names others ms in
    let counted = only_one self_id self_norm names others' ms in
    if is_nil key then passed else if ltb 1 (length others') then false else counted

pub is_likely_one_to_one : RemoteConversation → Text → Bool
unfolding only_one
is_likely_one_to_one c self_user_id =
    let self_id = trim_space self_user_id in
    let self_norm = normalize_participant_id self_id in
    is_nil (resolve_thread_name c)
    && only_one self_id self_norm (collect_self_display_names c self_id self_norm) [] (everyone c)

pub resolve_room_name : RemoteConversation → Bool → Text → Text
resolve_room_name c is_one_to_one self_user_id =
    if is_one_to_one
    then resolve_dm_name c self_user_id
    else if is_nil (resolve_thread_name c)
    then default_room_name
    else resolve_thread_name c

-- NormalizeForSelf
pub normalize_for_self : RemoteConversation → Text → Option Thread
unfolding resolve_room_name
normalize_for_self c self_user_id =
    let id = trim_space c.thread_properties.original_thread_id in
    let kind = trim_space c.thread_properties.product_thread_type in
    let one =
      text_eq kind (codes "OneToOneChat") || is_likely_one_to_one c (trim_space self_user_id) in
    if is_nil id
    then none
    else some (record {
      id = id;
      conversation_id = trim_space c.id;
      kind = kind;
      created_at_raw = c.thread_properties.created_at;
      is_creator = c.thread_properties.is_creator;
      is_one_to_one = one;
      room_name = resolve_room_name c one (trim_space self_user_id);
    })

-- Normalize
pub normalize : RemoteConversation → Option Thread
unfolding normalize_for_self
normalize c = normalize_for_self c []
