-- ===== src/Connector/Login/Apart.antt =====
-- The two tokens of a login are renewed apart: ensureValidSkypeToken of pkg/connector/handleteams.go,
-- ensureValidGraphToken of graph_token.go.
use matrix_teams.Prelude.{
  ◌≡◌, refl, ap, Bool, true, false, ◌||◌, ◌⊎◌, inl, inr, [], is_nil, Text, text_eq, trim_space,
  join, Bool-cases,
}
use matrix_teams.Auth.State.{AuthState}
use matrix_teams.Auth.Tokens.{
  AuthClient, TokenError, SkypeToken, has_valid_token, is_unset, should_persist_graph_token,
  scope_of,
}
use matrix_teams.Auth.Tokens.Granted.{HasNoGraph, refresh_access_token-HasNoGraph}
use matrix_teams.Auth.DeviceCode.{teams_personal_client_id}
use matrix_teams.Connector.Login.{
  UserLoginMetadata, LoginError, LoginWeb, Login, save, rotated, saved_graph, on_renewed_graph,
  graph_token_valid, ensure_valid_graph_token, with_skype_token, on_skype_token, on_access_token,
  ensure_valid_skype_token, skype_refresh_scopes, new_refresh_auth_client,
}

abbrev pub SameGraph : UserLoginMetadata → UserLoginMetadata → Type 0
SameGraph m m' =
    (m'.graph_access_token ≡ m.graph_access_token) × (m'.graph_expires_at ≡ m.graph_expires_at)

abbrev pub SameTeams : UserLoginMetadata → UserLoginMetadata → Type 0
SameTeams m m' =
    (m'.skype_token ≡ m.skype_token)
    × (m'.skype_token_expires_at ≡ m.skype_token_expires_at)
    × (m'.teams_user_id ≡ m.teams_user_id)

-- Neither row of scopes for the skype token lets a token for Graph be kept.
skype_scopes_apart :
    (m : UserLoginMetadata) → should_persist_graph_token (scope_of (skype_refresh_scopes m)) ≡ false
unfolding skype_refresh_scopes should_persist_graph_token join
skype_scopes_apart m =
    elim (Bool-cases (text_eq (trim_space m.oauth_client_id) teams_personal_client_id)) [
      | inl e ↦ rw e refl
      | inr e ↦ rw e refl
    ]

module _ {S : Type 0} (web : LoginWeb S) where
  saved-meta : (l : Login S) → (save web l).1.meta ≡ l.meta
  unfolding save
  saved-meta l = elim (Bool-cases (web.can_save l.world)) [ inl e ↦ rw e refl | inr e ↦ rw e refl ]

  with_skype_token-graph :
      (state : AuthState) (t : SkypeToken) (m : UserLoginMetadata)
      → state.graph_access_token ≡ []
      → SameGraph m (with_skype_token web state t m)
  unfolding with_skype_token trim_space
  with_skype_token-graph state t m h =
      let e : is_nil (trim_space state.graph_access_token) ≡ true =
        ap (λ (g : Text). is_nil (trim_space g)) h in
      rw e (refl, refl)

  on_skype_token-graph :
      (old : Text) (state : AuthState) (l : Login S) (r : (TokenError ⊎ SkypeToken) × S)
      → state.graph_access_token ≡ []
      → SameGraph l.meta (on_skype_token web old state l r).1.meta
  unfolding on_skype_token
  on_skype_token-graph old state l (inl err, s) h =
      elim (Bool-cases (is_nil (trim_space state.refresh_token))) [
        | inl e ↦ rw e (refl, refl)
        | inr e ↦ rw e (elim (Bool-cases (text_eq l.meta.refresh_token old)) [
          | inl f ↦ rw f (refl, refl)
          | inr f ↦ rw f (rw saved-meta (refl, refl))
        ])
      ]
  on_skype_token-graph old state l (inr t, s) h =
      rw saved-meta (with_skype_token-graph state t l.meta h)

  on_access_token-graph :
      (client : AuthClient) (old : Text) (l : Login S) (r : (TokenError ⊎ AuthState) × S)
      → HasNoGraph web.tokens r
      → SameGraph l.meta (on_access_token web client old l r).1.meta
  unfolding on_access_token
  on_access_token-graph client old l (inl err, s) h = (refl, refl)
  on_access_token-graph client old l (inr state, s) h =
      on_skype_token-graph old state
        (record l {
          meta = record l.meta {
            refresh_token = rotated web l.meta.refresh_token state.refresh_token;
          };
        })
        _ h

  skype_apart : (l : Login S) → SameGraph l.meta (ensure_valid_skype_token web l).1.meta
  unfolding ensure_valid_skype_token
  skype_apart l =
      elim (Bool-cases (
        has_valid_token l.meta.skype_token l.meta.skype_token_expires_at
          (web.tokens.now l.world))) [
            | inl e ↦ rw e (refl, refl)
            | inr e ↦ rw e (elim (Bool-cases (is_nil (trim_space l.meta.refresh_token))) [
              | inl f ↦ rw f (refl, refl)
              | inr f ↦ rw f (
                  on_access_token-graph _ (trim_space l.meta.refresh_token) l _ (
                    refresh_access_token-HasNoGraph web.tokens
                      (record (new_refresh_auth_client web.config_client_id l.meta) {
                        scopes = skype_refresh_scopes l.meta;
                      })
                      (trim_space l.meta.refresh_token) l.world (skype_scopes_apart l.meta)))
            ])
          ]

  saved_graph-meta : (r : Bool × Login S) → (saved_graph web r).1.meta ≡ r.1.meta
  unfolding saved_graph
  saved_graph-meta (true, l) = refl
  saved_graph-meta (false, l) = refl

  on_renewed_graph-teams :
      (l : Login S) (r : (LoginError ⊎ AuthState) × S)
      → SameTeams l.meta (on_renewed_graph web l r).1.meta
  unfolding on_renewed_graph
  on_renewed_graph-teams l (inl err, s) = (refl, refl, refl)
  on_renewed_graph-teams l (inr refreshed, s) =
      elim (Bool-cases
        (is_nil (trim_space refreshed.graph_access_token) || is_unset refreshed.graph_expires_at)) [
          | inl e ↦ rw e (refl, refl, refl)
          | inr e ↦ rw e (rw saved_graph-meta (rw saved-meta (refl, refl, refl)))
        ]

  graph_apart : (l : Login S) → SameTeams l.meta (ensure_valid_graph_token web l).1.meta
  unfolding ensure_valid_graph_token
  graph_apart l = elim (Bool-cases (graph_token_valid l.meta (web.tokens.now l.world))) [
    | inl e ↦ rw e (refl, refl, refl)
    | inr e ↦ rw e (elim (Bool-cases (is_nil (trim_space l.meta.refresh_token))) [
      | inl f ↦ rw f (refl, refl, refl)
      | inr f ↦ rw f (on_renewed_graph-teams l _)
    ])
  ]

-- Whatever the endpoints answer, errors included, a renewal of the skype token leaves the token for
-- Graph and its expiry as they are, and a renewal of the token for Graph leaves the skype token, its
-- expiry and the user as they are.
pub renewals_apart :
    {S : Type 0} (web : LoginWeb S) (l : Login S)
    → SameGraph l.meta (ensure_valid_skype_token web l).1.meta
      × SameTeams l.meta (ensure_valid_graph_token web l).1.meta
renewals_apart web l = (skype_apart web l, graph_apart web l)
