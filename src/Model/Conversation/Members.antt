-- ===== src/Model/Conversation/Members.antt =====
-- The identifiers of members, as the code compares them: `normalizeParticipantID`.
use matrix_teams.Prelude.{
  ℕ, zero, suc, ◌<◌, ◌≤◌, ◌≡◌, refl, ◌==◌, Option, none, some, [], ◌∷◌, inl, inr, arith, length,
  Text, Bool-cases, to_lower, trim_space,
}
use matrix_teams.Model.Conversation.{behind_prefix, go_on, strip_prefixes, normalize_participant_id}

behind_prefix-shorter :
    (n : ℕ) (id rest : Text) → behind_prefix n id ≡ some rest → length rest < length id
unfolding behind_prefix
behind_prefix-shorter n [] rest h = ground arith
behind_prefix-shorter n (c ∷ id) rest h = elim (Bool-cases (c == b':')) [
  | inl e ↦ ground (arith, e)
  | inr e ↦ ground (arith, behind_prefix-shorter (suc n) id rest)
]

go_on_lem :
    (fuel : ℕ) (again : Text → Text)
    → ((id : Text) → length id ≤ fuel → behind_prefix 0 (again id) ≡ none)
    → (id : Text) (v : Option Text) → behind_prefix 0 id ≡ v
    → length id ≤ suc fuel
    → behind_prefix 0 (go_on again id v) ≡ none
unfolding go_on
go_on_lem fuel again ih id none e h = e
go_on_lem fuel again ih id (some rest) e h =
    ih rest (omega (arith, behind_prefix-shorter 0 id rest e))

strip_prefixes_lem :
    (fuel : ℕ) (id : Text) → length id ≤ fuel → behind_prefix 0 (strip_prefixes fuel id) ≡ none
unfolding strip_prefixes
strip_prefixes_lem zero [] h = unfold behind_prefix in refl
strip_prefixes_lem zero (c ∷ id) h = elim h [ ]
strip_prefixes_lem (suc fuel) id h =
    go_on_lem fuel (strip_prefixes fuel) (strip_prefixes_lem fuel) id (behind_prefix 0 id) refl h

-- The fuel is enough: what is left has no prefix of digits and a colon with something behind it.
pub normalize_participant_id_complete :
    (raw : Text) → behind_prefix 0 (normalize_participant_id raw) ≡ none
unfolding normalize_participant_id
normalize_participant_id_complete raw =
    strip_prefixes_lem (length (to_lower (trim_space raw))) (to_lower (trim_space raw))
      (omega arith)
