-- ===== src/Connector/Reactions/Examples.antt =====
-- The reaction table of pkg/connector/reactions.go at concrete inputs.
use matrix_teams.Prelude.{
  ◌≡◌, refl, false, none, some, List, [], ◌∷◌, Text, codes, text_eq, lookup, insert, trim_space,
  is_nil,
}
use matrix_teams.Connector.Reactions.{
  build, inverse, emoji_to_emotion_key, map_emoji_to_emotion_key, map_emotion_key_to_emoji,
}
use matrix_teams.Connector.Reactions.Mapping.{Lists, key_round_trip, lost_keys}

-- An emoji that has all its selectors already.
as_is : Text → Text
as_is emoji = emoji

abbrev visited : List (Text × Text)
visited = ((0x1f525 ∷ []), codes "fire") ∷ ((0x1f914 ∷ []), codes "think") ∷ []

test_Lists : Lists visited (emoji_to_emotion_key as_is)
unfolding emoji_to_emotion_key build as_is lookup insert text_eq
test_Lists = (refl, (refl, tt))

test_fire : map_emotion_key_to_emoji visited (codes "fire") ≡ some (0x1f525 ∷ [])
unfolding map_emotion_key_to_emoji inverse lookup insert text_eq trim_space
test_fire = refl

test_blank : is_nil (trim_space (0x1f525 ∷ [])) ≡ false
unfolding trim_space
test_blank = refl

key_round_trip_example :
    map_emoji_to_emotion_key as_is (0x1f525 ∷ []) ≡ some (trim_space (codes "fire"))
unfolding as_is
key_round_trip_example =
    key_round_trip as_is visited (codes "fire") (0x1f525 ∷ []) test_Lists test_fire refl test_blank

lost_keys_example :
    (map_emotion_key_to_emoji visited (codes "smile") ≡ none)
    × (map_emotion_key_to_emoji visited (codes "wonder") ≡ none)
    × (map_emotion_key_to_emoji visited (codes "bandit") ≡ none)
lost_keys_example = lost_keys as_is visited test_Lists
