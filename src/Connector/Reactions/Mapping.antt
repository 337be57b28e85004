-- ===== src/Connector/Reactions/Mapping.antt =====
-- The two directions of the reaction table (pkg/connector/reactions.go).
use matrix_teams.Prelude.{
  ◌≡◌, ◌≢◌, refl, Bool, true, false, not, ◌&&◌, none, some, List, [], ◌∷◌, ◌++◌, inl, inr, arith,
  if◌then◌else◌, Text, codes, text_eq, text_eq_iff, is_nil, is_some, trim_space, lookup, insert,
  lookup-insert, All, Bool-cases, Option-cases, take, drop,
}
use matrix_teams.Connector.Reactions.{
  entries, build, inverse, emoji_to_emotion_key, map_emoji_to_emotion_key, map_emotion_key_to_emoji,
}

-- Every entry that a list visits is one of the map.
abbrev pub Lists : List (Text × Text) → List (Text × Text) → Type 0
Lists visited table = All (λ e. lookup table e.0 ≡ some e.1) visited

inverse_sound :
    (table m visited : List (Text × Text)) (key emoji : Text)
    → ((k e : Text) → lookup m k ≡ some e → lookup table e ≡ some k)
    → Lists visited table
    → lookup (inverse m visited) key ≡ some emoji
    → lookup table emoji ≡ some key
unfolding inverse
inverse_sound table m [] key emoji sound h found = sound key emoji found
inverse_sound table m ((e, k) ∷ rest) key emoji sound (h, hs) found =
    inverse_sound table (if is_some (lookup m k) then m else insert m k e) rest key emoji
      (λ k' e' at. elim (Bool-cases (is_some (lookup m k))) [
        | inl old ↦ sound k' e' (rw old at at)
        | inr new ↦
            ground (arith, h, rw new at at, lookup-insert m k k' e, text_eq_iff k k', sound k' e')
      ])
      hs found

-- Whatever the order in which the inverse was built, the emoji that an emotion key is shown as is one
-- that the table sends back to the key.
pub emoji_of_key :
    (fully_qualify : Text → Text) (visited : List (Text × Text)) (emotion_key emoji : Text)
    → Lists visited (emoji_to_emotion_key fully_qualify)
    → map_emotion_key_to_emoji visited emotion_key ≡ some emoji
    → lookup (emoji_to_emotion_key fully_qualify) emoji ≡ some (trim_space emotion_key)
unfolding map_emotion_key_to_emoji
emoji_of_key fully_qualify visited emotion_key emoji h found =
    inverse_sound (emoji_to_emotion_key fully_qualify) [] visited (trim_space emotion_key) emoji
      (λ k e none_found. absurd (nothing k e none_found)) h (ground arith)
  where
    nothing : (k e : Text) → lookup {V = Text} [] k ≡ some e → ⊥
    nothing k e p = unfold lookup in cc

-- Sending the shown emoji back gives the key again, where the variation selectors of the emoji in the
-- table are complete already (`FullyQualify` leaves a fully qualified emoji as it is).
pub key_round_trip :
    (fully_qualify : Text → Text) (visited : List (Text × Text)) (emotion_key emoji : Text)
    → Lists visited (emoji_to_emotion_key fully_qualify)
    → map_emotion_key_to_emoji visited emotion_key ≡ some emoji
    → fully_qualify emoji ≡ emoji
    → is_nil (trim_space emoji) ≡ false
    → map_emoji_to_emotion_key fully_qualify emoji ≡ some (trim_space emotion_key)
unfolding map_emoji_to_emotion_key
key_round_trip fully_qualify visited emotion_key emoji h found q n =
    rw (n, q) (emoji_of_key fully_qualify visited emotion_key emoji h found)

-- A value that a map never holds, and one that it holds at one key only.
abbrev Never : Text → List (Text × Text) → Type 0
Never v m = (j : Text) → lookup m j ≢ some v

abbrev OnlyAt : Text → Text → List (Text × Text) → Type 0
OnlyAt v k m = (j : Text) → lookup m j ≡ some v → j ≡ k

lacks : Text → List (Text × Text) → Bool
lacks v [] = true
lacks v ((e, w) ∷ rest) = not (text_eq w v) && lacks v rest

build-append :
    (f : Text → Text) (m xs ys : List (Text × Text))
    → build f m (xs ++ ys) ≡ build f (build f m xs) ys
unfolding build
build-append f m [] ys = refl
build-append f m ((e, w) ∷ xs) ys = build-append f (insert m (f e) w) xs ys

insert-Never :
    (v k w : Text) (m : List (Text × Text))
    → text_eq w v ≡ false
    → OnlyAt v k m
    → Never v (insert m k w)
insert-Never v k w m ne only j found =
    ground (arith, lookup-insert m k j w, text_eq_iff k j, text_eq_iff w v, only j)

insert-OnlyAt : (v k w : Text) (m : List (Text × Text)) → Never v m → OnlyAt v k (insert m k w)
insert-OnlyAt v k w m never j found =
    ground (arith, lookup-insert m k j w, text_eq_iff k j, never j)

Never-build :
    (f : Text → Text) (v : Text) (es m : List (Text × Text))
    → lacks v es ≡ true
    → Never v m
    → Never v (build f m es)
unfolding build lacks
Never-build f v [] m l never = never
Never-build f v ((e, w) ∷ es) m l never =
    Never-build f v es (insert m (f e) w) (ground arith)
      (insert-Never v (f e) w m (ground arith) (λ j found. absurd (never j found)))

OnlyAt-insert :
    (v k j w : Text) (m : List (Text × Text))
    → text_eq w v ≡ false
    → OnlyAt v k m
    → OnlyAt v k (insert m j w)
OnlyAt-insert v k j w m ne only i found =
    ground (arith, lookup-insert m j i w, text_eq_iff w v, only i)

OnlyAt-build :
    (f : Text → Text) (v k : Text) (es m : List (Text × Text))
    → lacks v es ≡ true
    → OnlyAt v k m
    → OnlyAt v k (build f m es)
unfolding build lacks
OnlyAt-build f v k [] m l only = only
OnlyAt-build f v k ((e, w) ∷ es) m l only =
    OnlyAt-build f v k es (insert m (f e) w) (ground arith)
      (OnlyAt-insert v k (f e) w m (ground arith) only)

-- Two entries of one emoji: the key of the earlier is lost, if no other entry has it.
shadowed :
    (f : Text → Text) (pre mid post : List (Text × Text)) (emoji v w : Text)
    → lacks v pre ≡ true
    → lacks v mid ≡ true
    → lacks v post ≡ true
    → text_eq w v ≡ false
    → Never v (build f [] (pre ++ ((emoji, v) ∷ (mid ++ ((emoji, w) ∷ post)))))
unfolding build
shadowed f pre mid post emoji v w lp lm ls ne =
    rw
      (
        build-append f [] pre ((emoji, v) ∷ (mid ++ ((emoji, w) ∷ post))),
        build-append f (insert (build f [] pre) (f emoji) v) mid ((emoji, w) ∷ post),
      )
      (Never-build f v post _ ls (
        insert-Never v (f emoji) w _ ne (
          OnlyAt-build f v (f emoji) mid _ lm (
            insert-OnlyAt v (f emoji) v _
              (Never-build f v pre [] lp (λ j found. nothing j found))))))
  where
    nothing : (j : Text) → lookup {V = Text} [] j ≡ some v → ⊥
    nothing j p = unfold lookup in cc

Never-smile : (f : Text → Text) → Never (codes "smile") (emoji_to_emotion_key f)
unfolding emoji_to_emotion_key lacks text_eq
Never-smile f =
    shadowed f (take 4 entries) (take 59 (drop 5 entries)) (drop 65 entries) (0x1f642 ∷ [])
      (codes "smile") (codes "nod") refl refl refl refl

Never-wonder : (f : Text → Text) → Never (codes "wonder") (emoji_to_emotion_key f)
unfolding emoji_to_emotion_key lacks text_eq
Never-wonder f =
    shadowed f (take 37 entries) (take 21 (drop 38 entries)) (drop 60 entries) (0x1f914 ∷ [])
      (codes "wonder") (codes "think") refl refl refl refl

Never-bandit : (f : Text → Text) → Never (codes "bandit") (emoji_to_emotion_key f)
unfolding emoji_to_emotion_key lacks text_eq
Never-bandit f =
    shadowed f (take 83 entries) (take 5 (drop 84 entries)) (drop 90 entries) (0x1f977 ∷ [])
      (codes "bandit") (codes "ninja") refl refl refl refl

lost_key :
    (fully_qualify : Text → Text) (visited : List (Text × Text)) (key : Text)
    → Lists visited (emoji_to_emotion_key fully_qualify)
    → Never (trim_space key) (emoji_to_emotion_key fully_qualify)
    → map_emotion_key_to_emoji visited key ≡ none
lost_key fully_qualify visited key h never =
    elim (Option-cases (map_emotion_key_to_emoji visited key)) [
      | inl e ↦ e
      | inr (emoji, found) ↦
          absurd (never emoji (emoji_of_key fully_qualify visited key emoji h found))
    ]

-- Three keys that the table writes are lost, since a later entry has the same emoji: whatever the
-- order in which the inverse was built, a reaction with one of these keys is shown as no emoji.
pub lost_keys :
    (fully_qualify : Text → Text) (visited : List (Text × Text))
    → Lists visited (emoji_to_emotion_key fully_qualify)
    → (map_emotion_key_to_emoji visited (codes "smile") ≡ none)
      × (map_emotion_key_to_emoji visited (codes "wonder") ≡ none)
      × (map_emotion_key_to_emoji visited (codes "bandit") ≡ none)
unfolding trim_space
lost_keys f visited h = (
  lost_key f visited (codes "smile") h (Never-smile f),
  lost_key f visited (codes "wonder") h (Never-wonder f),
  lost_key f visited (codes "bandit") h (Never-bandit f),
)
