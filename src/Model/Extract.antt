-- ===== src/Model/Extract.antt =====
-- The extractors of internal/teams/model/message.go, on decoded JSON: a field that may be a string or
-- an object is the text that the code takes from it, `none` where it is absent or neither.
use matrix_teams.Prelude.{
  ◌||◌, Option, none, some, List, [], ◌∷◌, ◌==◌, if◌then◌else◌, is_nil, ℤ, pos, negsuc, Text,
  trim_space,
}
use matrix_teams.Go.Strconv.{parse_int}
use matrix_teams.Model.Message.{MessageReaction, MessageReactionUser}

-- What stands behind the last slash.
behind_slash : Text → Option Text
behind_slash [] = none
behind_slash (c ∷ s) = elim (behind_slash s) [
  | some r ↦ some r
  | none ↦ if c == b'/' then some s else none
]

segment_or : Text → Option Text → Text
segment_or value none = value
segment_or value (some r) = if is_nil r then value else r

-- extractSenderIDValue
unfoldable pub extract_sender_id_value : Text → Text
unfolding behind_slash segment_or
extract_sender_id_value value = segment_or (trim_space value) (behind_slash (trim_space value))

-- ExtractSenderID
unfoldable pub extract_sender_id : Option Text → Text
extract_sender_id none = []
extract_sender_id (some value) = extract_sender_id_value value

-- The object of a sender: displayName and name.
pub extract_sender_name : Option (Text × Text) → Text
extract_sender_name none = []
extract_sender_name (some (display_name, name)) = if is_nil display_name then name else display_name

-- The time of a reaction: absent, a string, a number cut to int64, or something else.
pub data RawTime : Type 0 where
  absent : RawTime
  string : Text → RawTime
  number : ℤ → RawTime
  other : RawTime

pub record EmotionUser : Type 0 where
  pub mri : Text
  pub time : RawTime

pub record Emotion : Type 0 where
  pub key : Text
  pub users : List EmotionUser

-- The whole part of what strconv.ParseFloat reads, as an int64.
module _ (parse_float : Text → Option ℤ) where
  float_time : Option ℤ → ℤ
  float_time none = pos 0
  float_time (some val) = val

  integer_time : Text → Option ℤ → ℤ
  unfolding float_time
  integer_time str none = float_time (parse_float str)
  integer_time str (some val) = val

  -- parseReactionTime
  pub parse_reaction_time : RawTime → ℤ
  unfolding integer_time
  parse_reaction_time absent = pos 0
  parse_reaction_time (string str) =
      let str' = trim_space str in if is_nil str' then pos 0 else integer_time str' (parse_int str')
  parse_reaction_time (number n) = n
  parse_reaction_time other = pos 0

  emotion_users : List EmotionUser → List MessageReactionUser
  unfolding parse_reaction_time
  emotion_users [] = []
  emotion_users (u ∷ us) =
      let rest = emotion_users us in
      let mri = trim_space u.mri in
      if is_nil mri then rest else record { mri = mri; time_ms = parse_reaction_time u.time } ∷ rest

  -- ExtractReactions: no emotions where the properties do not decode.
  pub extract_reactions : List Emotion → List MessageReaction
  unfolding emotion_users
  extract_reactions [] = []
  extract_reactions (e ∷ es) =
      let rest = extract_reactions es in
      let key = trim_space e.key in
      let users = emotion_users e.users in
      if is_nil key || is_nil users
      then rest
      else record { emotion_key = key; users = users } ∷ rest

-- The zero time, in nanoseconds since the Unix epoch.
abbrev pub zero_time : ℤ
zero_time = negsuc 62_135_596_799_999_999_999

time_or : ℤ → Option ℤ → ℤ
time_or ts none = ts
time_or ts (some t) = t

-- ParseTimestamp, with what time.Parse reads of the two layouts.
pub parse_timestamp : (Text → Option ℤ) → (Text → Option ℤ) → Text → ℤ
unfolding time_or
parse_timestamp rfc3339_nano rfc3339 value =
    if is_nil value
    then zero_time
    else time_or (time_or zero_time (rfc3339 value)) (rfc3339_nano value)
