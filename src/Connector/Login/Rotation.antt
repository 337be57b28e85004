-- ===== src/Connector/Login/Rotation.antt =====
-- What becomes of a refresh token that the endpoint rotates: ensureValidSkypeToken of
-- pkg/connector/handleteams.go, ensureValidGraphToken of graph_token.go, and Connect of client.go.
use matrix_teams.Prelude.{
  ◌≡◌, refl, ap, ◌∙◌, true, false, ◌||◌, ◌⊎◌, inl, inr, Option, none, some, List, [], ◌∷◌, is_nil,
  if◌then◌else◌, Text, trim_space, text_eq, Bool-cases,
}
use matrix_teams.Auth.State.{AuthState}
use matrix_teams.Auth.Tokens.{
  AuthClient, TokenError, SkypeToken, has_valid_token, is_unset, refresh_access_token,
  acquire_skype_token,
}
use matrix_teams.Connector.Login.{
  LoginError, LoginWeb, Login, save, saved_graph, on_renewed_graph, graph_token_valid,
  ensure_valid_graph_token, on_skype_token, on_access_token, ensure_valid_skype_token,
  set_logged_in, connect, send_state, connecting_state, new_refresh_auth_client,
  skype_refresh_scopes, refresh_access_token_for_graph_scope,
}
use matrix_teams.Connector.Login.Synced.{
  IsRenewable, Renewal, connecting, skype_token, graph_token, renew, run, renew-IsRenewable,
}

-- The refresh token after an answer: the one that came with it, unless it is blank.
abbrev pub kept : Text → Option Text → Text
kept old none = old
kept old (some new) = if is_nil (trim_space new) then old else trim_space new

-- What came with the answer to a request for an access token.
abbrev pub with_access_token : TokenError ⊎ AuthState → Option Text
with_access_token (inl err) = none
with_access_token (inr state) = some state.refresh_token

-- The same for a Graph token, which counts only with the token and its expiry.
abbrev pub with_graph_token : LoginError ⊎ AuthState → Option Text
with_graph_token (inl err) = none
with_graph_token (inr state) =
    if is_nil (trim_space state.graph_access_token) || is_unset state.graph_expires_at
    then none
    else some state.refresh_token

module _ {S : Type 0} (web : LoginWeb S) where
  -- The refresh token that the endpoint gives in a renewal, if it is asked and gives one.
  pub brought : Renewal → Login S → Option Text
  brought graph_token l =
      if graph_token_valid l.meta (web.tokens.now l.world)
      then none
      else with_graph_token
          (refresh_access_token_for_graph_scope web
            (new_refresh_auth_client web.config_client_id l.meta) (trim_space l.meta.refresh_token)
            l.world).0
  brought _ l =
      let client = record (new_refresh_auth_client web.config_client_id l.meta) {
        scopes = skype_refresh_scopes l.meta;
      } in
      if has_valid_token l.meta.skype_token l.meta.skype_token_expires_at (web.tokens.now l.world)
      then none
      else with_access_token
          (refresh_access_token web.tokens client (trim_space l.meta.refresh_token) l.world).0

  -- The newest token of a row of renewals, from the one at its start.
  pub latest : Text → List Renewal → Login S → Text
  unfolding brought
  latest token [] l = token
  latest token (op ∷ ops) l = latest (kept token (brought op l)) ops (renew web op l)

  save-meta : (l : Login S) → (save web l).1.meta ≡ l.meta
  unfolding save
  save-meta l = elim (Bool-cases (web.can_save l.world)) [ inl e ↦ rw e refl | inr e ↦ rw e refl ]

  on_skype_token-keeps :
      (old : Text) (state : AuthState) (l : Login S) (r : (TokenError ⊎ SkypeToken) × S)
      → (on_skype_token web old state l r).1.meta.refresh_token ≡ l.meta.refresh_token
  unfolding on_skype_token
  on_skype_token-keeps old state l (inr t, s) = rw (save-meta _) refl
  on_skype_token-keeps old state l (inl err, s) =
      elim (Bool-cases (is_nil (trim_space state.refresh_token))) [
        | inl blank ↦ rw blank refl
        | inr filled ↦ elim (Bool-cases (text_eq l.meta.refresh_token old)) [
          | inl same ↦ rw (filled, same) refl
          | inr other ↦ rw (filled, other) (rw (save-meta _) refl)
        ]
      ]

  on_access_token-kept :
      (client : AuthClient) (old : Text) (l : Login S) (r : (TokenError ⊎ AuthState) × S)
      → (on_access_token web client old l r).1.meta.refresh_token
        ≡ kept l.meta.refresh_token (with_access_token r.0)
  unfolding on_access_token
  on_access_token-kept client old l (inl err, s) = refl
  on_access_token-kept client old l (inr state, s) =
      let token =
        if is_nil (trim_space state.refresh_token)
        then l.meta.refresh_token
        else trim_space state.refresh_token in
      on_skype_token-keeps old state (record l { meta = record l.meta { refresh_token = token } })
        (acquire_skype_token web.tokens client state.access_token s)

  on_renewed_graph-kept :
      (l : Login S) (r : (LoginError ⊎ AuthState) × S)
      → (on_renewed_graph web l r).1.meta.refresh_token
        ≡ kept l.meta.refresh_token (with_graph_token r.0)
  unfolding on_renewed_graph saved_graph save
  on_renewed_graph-kept l (inl err, s) = refl
  on_renewed_graph-kept l (inr state, s) =
      elim (Bool-cases
        (is_nil (trim_space state.graph_access_token) || is_unset state.graph_expires_at)) [
          | inl e ↦ rw e refl
          | inr e ↦ elim (Bool-cases (web.can_save s)) [
            | inl saved ↦ rw (e, saved) refl
            | inr unsaved ↦ rw (e, unsaved) refl
          ]
        ]

  ensure_valid_skype_token-kept :
      (l : Login S)
      → is_nil (trim_space l.meta.refresh_token) ≡ false
      → (ensure_valid_skype_token web l).1.meta.refresh_token
        ≡ kept l.meta.refresh_token (brought skype_token l)
  unfolding ensure_valid_skype_token brought
  ensure_valid_skype_token-kept l p =
      elim (Bool-cases (
        has_valid_token l.meta.skype_token l.meta.skype_token_expires_at
          (web.tokens.now l.world))) [
            | inl valid ↦ rw valid refl
            | inr stale ↦ rw (stale, p) (on_access_token-kept _ _ l _)
          ]

  ensure_valid_graph_token-kept :
      (l : Login S)
      → is_nil (trim_space l.meta.refresh_token) ≡ false
      → (ensure_valid_graph_token web l).1.meta.refresh_token
        ≡ kept l.meta.refresh_token (brought graph_token l)
  unfolding ensure_valid_graph_token brought
  ensure_valid_graph_token-kept l p =
      elim (Bool-cases (graph_token_valid l.meta (web.tokens.now l.world))) [
        | inl valid ↦ rw valid refl
        | inr stale ↦ rw (stale, p) (on_renewed_graph-kept l _)
      ]

  set_logged_in-keeps :
      (r : Option LoginError × Login S)
      → (set_logged_in web r).1.meta.refresh_token ≡ r.1.meta.refresh_token
  unfolding set_logged_in
  set_logged_in-keeps (none, l) = refl
  set_logged_in-keeps (some err, l) = refl

  renew-kept :
      (op : Renewal) (l : Login S)
      → is_nil (trim_space l.meta.refresh_token) ≡ false
      → (renew web op l).meta.refresh_token ≡ kept l.meta.refresh_token (brought op l)
  unfolding renew connect brought send_state
  renew-kept graph_token l p = ensure_valid_graph_token-kept l p
  renew-kept skype_token l p = ensure_valid_skype_token-kept l p
  renew-kept connecting l p =
      set_logged_in-keeps (ensure_valid_skype_token web (send_state web connecting_state l))
      ∙ ensure_valid_skype_token-kept (send_state web connecting_state l) p

  -- Where the database takes what is saved, and has the metadata in memory with a trimmed refresh
  -- token that is not empty: any row of connects and renewals of the two tokens ends so as well, and
  -- the database then holds the newest refresh token. Each answer of the endpoint replaces the
  -- token by the one that it brings, unless that is blank, also where the skype token that is asked
  -- for next fails; the answer for a Graph token does so only if that token and its expiry came.
  pub run-latest :
      ((s : S) → web.can_save s ≡ true)
      → (ops : List Renewal) (l : Login S) → IsRenewable l
      → IsRenewable (run web ops l)
        × ((run web ops l).stored.refresh_token ≡ latest l.meta.refresh_token ops l)
  unfolding run latest
  run-latest saves [] l v = (v, rw v.synced refl)
  run-latest saves (op ∷ ops) l v =
      let filled : is_nil (trim_space l.meta.refresh_token) ≡ false = rw v.trimmed v.present in
      let (w, e) = run-latest saves ops (renew web op l) (renew-IsRenewable web saves op l v) in
      (w, e ∙ ap (λ token. latest token ops (renew web op l)) (renew-kept op l filled))
