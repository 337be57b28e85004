-- ===== src/Connector/Outbound/Reactions/Phases.antt =====
-- The two phases of a reaction (pkg/connector/handlematrix.go).
use matrix_teams.Prelude.{
  ◌≡◌, refl, ap, subst, ◌⊎◌, inl, inr, Option, none, some, is_nil, Text, trim_space, Bool-cases,
}
use matrix_teams.Connector.Reactions.{map_emoji_to_emotion_key}
use matrix_teams.Connector.Outbound.{Session, HandlerError, Services, lift, missing_teams_user_id}
use matrix_teams.Connector.Outbound.Guards.{with_token, signed_in}
use matrix_teams.Connector.Outbound.Reactions.{
  PreResponse, pre_response, pre_handle, pre_handle_matrix_reaction, given, chosen, looked_up,
  handle_reaction, handle_matrix_reaction,
}

module _ {W E : Type 0} (sv : Services W E) (fully_qualify : Text → Text) where
  -- An answer of a guarded handler comes from the handler.
  from_token :
      {A : Type 0} (go : Session W → (HandlerError E ⊎ A) × Session W) (o : Option E)
      (s s' : Session W) (a : A)
      → with_token sv go (o, s) ≡ (inr a, s')
      → (s1 : Session W) × (go s1 ≡ (inr a, s'))
  unfolding with_token
  from_token go (some err) s s' a h = absurd (cc)
  from_token go none s s' a h = (s, h)

  from_signed_in :
      {A : Type 0} (go : Session W → (HandlerError E ⊎ A) × Session W) (s s' : Session W) (a : A)
      → signed_in sv go s ≡ (inr a, s')
      → (s1 : Session W) × (go s1 ≡ (inr a, s'))
  unfolding signed_in
  from_signed_in go s s' a h = elim (Bool-cases (sv.is_logged_in s.world)) [
    | inl e ↦
        from_token go (sv.ensure_valid_skype_token s.world).0 (lift sv.ensure_valid_skype_token s).1
          s' a (rw e at h)
    | inr e ↦ let h' : (inl HandlerError.not_logged_in, s) ≡ (inr a, s') = rw e at h in absurd (cc)
  ]

  same_token :
      {A : Type 0} (o : Option E) (s : Session W)
      (f g : Session W → (HandlerError E ⊎ A) × Session W)
      → ((s3 : Session W) → f s3 ≡ g s3)
      → with_token sv f (o, s) ≡ with_token sv g (o, s)
  unfolding with_token
  same_token (some err) s f g h = refl
  same_token none s f g h = h s

  chosen-given :
      (user emoji : Text) (o : Option Text) (pre : PreResponse)
      → map_emoji_to_emotion_key fully_qualify emoji ≡ o
      → pre_response sv fully_qualify user emoji o ≡ inr pre
      → chosen sv fully_qualify (given sv fully_qualify (some pre) emoji)
        ≡ chosen sv fully_qualify (given sv fully_qualify none emoji)
  unfolding pre_response chosen given looked_up
  chosen-given user emoji none pre at h = absurd (cc)
  chosen-given user emoji (some key) pre at h =
      let same : record { sender_id = trim_space user; emoji_id = key; emoji = emoji } ≡ pre = cc in
      subst
        (λ p.
          chosen sv fully_qualify (given sv fully_qualify (some p) emoji)
          ≡ looked_up sv fully_qualify emoji (map_emoji_to_emotion_key fully_qualify emoji))
        same
        (elim (Bool-cases (is_nil key)) [
          | inl e ↦ rw e refl
          | inr e ↦
              rw (e, at)
                (elim (Bool-cases (is_nil emoji)) [
                  | inl k ↦ rw (k, e) refl
                  | inr k ↦ rw (k, e) refl
                ])
        ])

  handle_reaction-pre :
      (portal_id target key : Text) (pre : PreResponse) (s1 s2 s : Session W)
      → pre_handle sv fully_qualify (some key) s1 ≡ (inr pre, s2)
      → handle_reaction sv fully_qualify portal_id target (some key) (some pre) s
        ≡ handle_reaction sv fully_qualify portal_id target (some key) none s
  unfolding pre_handle handle_reaction
  handle_reaction-pre portal_id target key pre s1 s2 s h =
      let user = sv.teams_user_id s1.world in
      let emoji = trim_space key in
      let o = map_emoji_to_emotion_key fully_qualify emoji in
      elim (Bool-cases (is_nil (trim_space user))) [
        | inl e ↦
            let h' : (inl missing_teams_user_id, s1) ≡ (inr pre, s2) = rw e at h in absurd (cc)
        | inr e ↦ rw (chosen-given user emoji o pre refl (ap (λ r. r.0) (rw e at h))) refl
      ]

  -- The answer of the first phase, handed to the second for the same content, changes nothing: the
  -- second answers, and calls Teams, as it would without it.
  pub handle_matrix_reaction-pre :
      (portal_id target key : Text) (pre : PreResponse) (s1 s2 s : Session W)
      → pre_handle_matrix_reaction sv fully_qualify (some key) s1 ≡ (inr pre, s2)
      → handle_matrix_reaction sv fully_qualify portal_id target (some key) (some pre) s
        ≡ handle_matrix_reaction sv fully_qualify portal_id target (some key) none s
  unfolding pre_handle_matrix_reaction handle_matrix_reaction signed_in
  handle_matrix_reaction-pre portal_id target key pre s1 s2 s h =
      let (s1', h') = from_signed_in (pre_handle sv fully_qualify (some key)) s1 s2 pre h in
      elim (Bool-cases (sv.is_logged_in s.world)) [
        | inl e ↦ rw e (
            same_token (sv.ensure_valid_skype_token s.world).0
              (lift sv.ensure_valid_skype_token s).1
              (handle_reaction sv fully_qualify portal_id target (some key) (some pre))
              (handle_reaction sv fully_qualify portal_id target (some key) none)
              (λ s3. handle_reaction-pre portal_id target key pre s1' s2 s3 h'))
        | inr e ↦ rw e refl
      ]
