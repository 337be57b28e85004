-- ===== src/Connector/Reactions.antt =====
-- The reactions of pkg/connector/reactions.go: emoji on Matrix, emotion keys on Teams.
-- `variationselector.FullyQualify` of go.mau.fi/util is a parameter.
pub mod Mapping
mod Examples
use matrix_teams.Prelude.{
  Option, none, some, List, [], ◌∷◌, if◌then◌else◌, is_nil, is_some, Text, codes, trim_space,
  lookup, insert,
}

-- The entries of the map literal, in its order, the emoji by their code points.
abbrev pub entries : List (Text × Text)
entries =
    ((0x1f44d ∷ 0x1f3fb ∷ []), codes "like")
    ∷ ((0x1f44c ∷ 0x1f3fb ∷ []), codes "ok")
    ∷ ((0x1f525 ∷ []), codes "fire")
    ∷ ((0x1f499 ∷ []), codes "heartblue")
    ∷ ((0x1f642 ∷ []), codes "smile")
    ∷ ((0x1f604 ∷ []), codes "laugh")
    ∷ ((0x2764 ∷ 0xfe0f ∷ []), codes "heart")
    ∷ ((0x1f618 ∷ []), codes "kiss")
    ∷ ((0x2639 ∷ 0xfe0f ∷ []), codes "sad")
    ∷ ((0x1f61b ∷ []), codes "tongueout")
    ∷ ((0x1f609 ∷ []), codes "wink")
    ∷ ((0x1f622 ∷ []), codes "cry")
    ∷ ((0x1f60d ∷ []), codes "inlove")
    ∷ ((0x1f917 ∷ []), codes "hug")
    ∷ ((0x1f602 ∷ []), codes "cwl")
    ∷ ((0x1f48b ∷ []), codes "lips")
    ∷ ((0x1f60a ∷ []), codes "blush")
    ∷ ((0x1f62e ∷ []), codes "surprised")
    ∷ ((0x1f427 ∷ []), codes "penguin")
    ∷ ((0x1f44d ∷ []), codes "like")
    ∷ ((0x1f60e ∷ []), codes "cool")
    ∷ ((0x1f923 ∷ []), codes "rofl")
    ∷ ((0x1f431 ∷ []), codes "cat")
    ∷ ((0x1f435 ∷ []), codes "monkey")
    ∷ ((0x1f44b ∷ []), codes "hi")
    ∷ ((0x2744 ∷ 0xfe0f ∷ []), codes "snowangel")
    ∷ ((0x1f338 ∷ []), codes "flower")
    ∷ ((0x1f601 ∷ []), codes "giggle")
    ∷ ((0x1f608 ∷ []), codes "devil")
    ∷ ((0x1f973 ∷ []), codes "party")
    ∷ ((0x1f61f ∷ []), codes "worry")
    ∷ ((0x1f37e ∷ []), codes "champagne")
    ∷ ((0x2600 ∷ 0xfe0f ∷ []), codes "sun")
    ∷ ((0x2b50 ∷ []), codes "star")
    ∷ ((0x1f43b ∷ 0x200d ∷ 0x2744 ∷ 0xfe0f ∷ []), codes "polarbear")
    ∷ ((0x1f644 ∷ []), codes "eyeroll")
    ∷ ((0x1f636 ∷ []), codes "speechless")
    ∷ ((0x1f914 ∷ []), codes "wonder")
    ∷ ((0x1f620 ∷ []), codes "angry")
    ∷ ((0x1f92e ∷ []), codes "puke")
    ∷ ((0x1f926 ∷ []), codes "facepalm")
    ∷ ((0x1f613 ∷ []), codes "sweat")
    ∷ ((0x1f921 ∷ []), codes "holidayspirit")
    ∷ ((0x1f634 ∷ []), codes "sleepy")
    ∷ ((0x1f647 ∷ []), codes "bow")
    ∷ ((0x1f484 ∷ []), codes "makeup")
    ∷ ((0x1f4b5 ∷ []), codes "cash")
    ∷ ((0x1f910 ∷ []), codes "lipssealed")
    ∷ ((0x1f976 ∷ []), codes "shivering")
    ∷ ((0x1f382 ∷ []), codes "cake")
    ∷ ((0x1f915 ∷ []), codes "headbang")
    ∷ ((0x1f483 ∷ []), codes "dance")
    ∷ ((0x1f633 ∷ []), codes "wasntme")
    ∷ ((0x1f922 ∷ []), codes "hungover")
    ∷ ((0x1f971 ∷ []), codes "yawn")
    ∷ ((0x1f381 ∷ []), codes "gift")
    ∷ ((0x1f607 ∷ []), codes "angel")
    ∷ ((0x1f384 ∷ []), codes "xmastree")
    ∷ ((0x1f494 ∷ []), codes "brokenheart")
    ∷ ((0x1f914 ∷ []), codes "think")
    ∷ ((0x1f44f ∷ []), codes "clap")
    ∷ ((0x1f44a ∷ []), codes "punch")
    ∷ ((0x1f612 ∷ []), codes "envy")
    ∷ ((0x1f91d ∷ []), codes "handshake")
    ∷ ((0x1f642 ∷ []), codes "nod")
    ∷ ((0x1f913 ∷ []), codes "nerdy")
    ∷ ((0x1f5a4 ∷ []), codes "emo")
    ∷ ((0x1f4aa ∷ []), codes "muscle")
    ∷ ((0x1f60b ∷ []), codes "mmm")
    ∷ ((0x1f64c ∷ []), codes "highfive")
    ∷ ((0x1f983 ∷ []), codes "turkey")
    ∷ ((0x1f4de ∷ []), codes "call")
    ∷ ((0x1f9d4 ∷ []), codes "movember")
    ∷ ((0x1f436 ∷ []), codes "dog")
    ∷ ((0x2615 ∷ []), codes "coffee")
    ∷ ((0x1f449 ∷ []), codes "poke")
    ∷ ((0x1f92c ∷ []), codes "swear")
    ∷ ((0x1f611 ∷ []), codes "donttalktome")
    ∷ ((0x1f91e ∷ []), codes "fingerscrossed")
    ∷ ((0x1f308 ∷ []), codes "rainbow")
    ∷ ((0x1f3a7 ∷ []), codes "headphones")
    ∷ ((0x23f3 ∷ []), codes "waiting")
    ∷ ((0x1f389 ∷ []), codes "festiveparty")
    ∷ ((0x1f977 ∷ []), codes "bandit")
    ∷ ((0x1f43f ∷ 0xfe0f ∷ []), codes "heidy")
    ∷ ((0x1f37a ∷ []), codes "beer")
    ∷ ((0x1f926 ∷ 0x200d ∷ 0x2642 ∷ 0xfe0f ∷ []), codes "doh")
    ∷ ((0x1f4a3 ∷ []), codes "bomb")
    ∷ ((0x1f600 ∷ []), codes "happy")
    ∷ ((0x1f977 ∷ []), codes "ninja")
    ∷ []

-- A map literal whose keys are computed: an entry replaces an earlier one of its key.
unfoldable pub build : (Text → Text) → List (Text × Text) → List (Text × Text) → List (Text × Text)
build fully_qualify m [] = m
build fully_qualify m ((emoji, key) ∷ rest) =
    build fully_qualify (insert m (fully_qualify emoji) key) rest

-- emotionKeyToEmoji, from the entries in the order in which `range` visits them: the first emoji of
-- a key stays.
unfoldable pub inverse : List (Text × Text) → List (Text × Text) → List (Text × Text)
inverse m [] = m
inverse m ((emoji, key) ∷ rest) =
    inverse (if is_some (lookup m key) then m else insert m key emoji) rest

module _ (fully_qualify : Text → Text) where
  -- emojiToEmotionKey
  unfoldable pub emoji_to_emotion_key : List (Text × Text)
  emoji_to_emotion_key = build fully_qualify [] entries

  -- MapEmojiToEmotionKey
  unfoldable pub map_emoji_to_emotion_key : Text → Option Text
  map_emoji_to_emotion_key emoji =
      if is_nil (trim_space emoji) then none else lookup emoji_to_emotion_key (fully_qualify emoji)

-- MapEmotionKeyToEmoji, where `visited` lists the entries of emojiToEmotionKey in the order of the
-- iteration that built the inverse.
pub map_emotion_key_to_emoji : List (Text × Text) → Text → Option Text
map_emotion_key_to_emoji visited emotion_key =
    let key = trim_space emotion_key in if is_nil key then none else lookup (inverse [] visited) key
