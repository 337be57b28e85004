-- ===== src/Model/Conversation/Names.antt =====
-- Who else is in a conversation, as the resolution of names and of one-to-one chats decides it.
use matrix_teams.Prelude.{
  ◌≡◌, refl, subst, ◌∙◌, Bool, false, ◌&&◌, ◌||◌, List, [], ◌∷◌, inl, inr, arith, all,
  if◌then◌else◌, is_nil, insert, Text, text_eq, Bool-cases, text_eq_iff, trim_space,
}
use matrix_teams.Model.Conversation.{
  RemoteConversation, ConversationMember, Names, everyone, member_name, is_skipped, has_self_name,
  first_other, other_key, only_one, resolve_thread_name, resolve_dm_name,
  collect_self_display_names, normalize_participant_id, is_likely_one_to_one,
}

-- Whether there is some key and no other.
abbrev pub one_key : List Text → Bool
one_key [] = false
one_key (k ∷ ks) = all (λ j. text_eq k j) ks

-- The first of a list of members by name, or else a fallback.
abbrev pub head_name : List ConversationMember → Text → Text
head_name [] fallback = fallback
head_name (m ∷ ms) fallback = member_name m

right_false : (a b : Bool) → (a || b) ≡ false → b ≡ false
right_false a b h = ground arith

module _ (self_id self_norm : Text) (names : Names) where
  -- The members with a name that are neither the user nor a bot, those of them whose name is not the
  -- user's, and the keys that count.
  abbrev pub named_others : List ConversationMember → List ConversationMember
  named_others [] = []
  named_others (m ∷ ms) =
      let rest = named_others ms in
      if is_skipped self_id self_norm m || is_nil (member_name m) then rest else m ∷ rest

  abbrev pub fresh : List ConversationMember → List ConversationMember
  fresh [] = []
  fresh (m ∷ ms) = let rest = fresh ms in if has_self_name names m then rest else m ∷ rest

  abbrev pub other_keys : List ConversationMember → List Text
  other_keys [] = []
  other_keys (m ∷ ms) =
      let rest = other_keys ms in
      let key = other_key self_id self_norm names m in if is_nil key then rest else key ∷ rest

  only_one_more :
      (k : Text) (ms : List ConversationMember)
      → only_one self_id self_norm names ((k, tt) ∷ []) ms ≡ all (λ j. text_eq k j) (other_keys ms)
  unfolding only_one insert
  only_one_more k [] = refl
  only_one_more k (m ∷ ms) =
      let key = other_key self_id self_norm names m in
      elim (Bool-cases (is_nil key)) [
        | inl e ↦ rw e (only_one_more k ms)
        | inr e ↦ elim (Bool-cases (text_eq k key)) [
          | inl q ↦
              rw (e, q)
                (subst
                  (λ j.
                    only_one self_id self_norm names ((j, tt) ∷ []) ms
                    ≡ all (λ i. text_eq k i) (other_keys ms))
                  ((text_eq_iff k key).0 q) (only_one_more k ms))
          | inr q ↦ rw (e, q) refl
        ]
      ]

  pub only_one_lem :
      (ms : List ConversationMember)
      → only_one self_id self_norm names [] ms ≡ one_key (other_keys ms)
  unfolding only_one insert
  only_one_lem [] = refl
  only_one_lem (m ∷ ms) = elim (Bool-cases (is_nil (other_key self_id self_norm names m))) [
    | inl e ↦ rw e (only_one_lem ms)
    | inr e ↦ rw e (only_one_more (other_key self_id self_norm names m) ms)
  ]

  abbrev or_first : List ConversationMember → Text → Text
  or_first ms fallback = if is_nil fallback then head_name ms [] else fallback

  first_other_lem :
      (fallback : Text) (ms : List ConversationMember)
      → first_other self_id self_norm names fallback ms
        ≡ head_name (fresh (named_others ms)) (or_first (named_others ms) fallback)
  unfolding first_other
  first_other_lem [] [] = refl
  first_other_lem (c ∷ fallback) [] = refl
  first_other_lem fallback (m ∷ ms) =
      elim (Bool-cases (is_skipped self_id self_norm m || is_nil (member_name m))) [
        | inl e ↦ rw e (first_other_lem fallback ms)
        | inr e ↦ elim (Bool-cases (has_self_name names m)) [
          | inr q ↦ rw (e, q) refl
          | inl q ↦
              rw (e, q)
                (first_kept fallback (member_name m) (right_false _ _ e) ms
                  (first_other_lem (if is_nil fallback then member_name m else fallback) ms))
        ]
      ]
    where
      first_kept :
          (fallback name : Text)
          → is_nil name ≡ false
          → (ms : List ConversationMember)
          → first_other self_id self_norm names (if is_nil fallback then name else fallback) ms
            ≡ head_name
                (fresh (named_others ms))
                (or_first (named_others ms) (if is_nil fallback then name else fallback))
          → first_other self_id self_norm names (if is_nil fallback then name else fallback) ms
            ≡ head_name (fresh (named_others ms)) (if is_nil fallback then name else fallback)
      first_kept [] name h ms ih = ih ∙ rw h refl
      first_kept (c ∷ fallback) name h ms ih = ih

-- A conversation looks like one-to-one exactly where no name of its thread is set and the members
-- other than the user, bots, and those with a name of the user have one key between them.
pub is_likely_one_to_one_lem :
    (c : RemoteConversation) (user : Text)
    → (let self_id = trim_space user in
        let self_norm = normalize_participant_id self_id in
        let names = collect_self_display_names c self_id self_norm in
        is_likely_one_to_one c user ≡ (
          is_nil (resolve_thread_name c)
          && one_key (other_keys self_id self_norm names (everyone c))))
unfolding is_likely_one_to_one
is_likely_one_to_one_lem c user = rw (only_one_lem _ _ _ (everyone c)) refl

-- The name of a one-to-one chat is the name of the first member, of those with a name who are neither
-- the user nor a bot, whose name is not the user's; else of the first of them; else it is empty.
pub resolve_dm_name_lem :
    (c : RemoteConversation) (user : Text)
    → (let self_id = trim_space user in
        let self_norm = normalize_participant_id self_id in
        let names = collect_self_display_names c self_id self_norm in
        let others = named_others self_id self_norm names (everyone c) in
        resolve_dm_name c user
        ≡ head_name (fresh self_id self_norm names others) (head_name others []))
unfolding resolve_dm_name
resolve_dm_name_lem c user = first_other_lem _ _ _ [] (everyone c)
