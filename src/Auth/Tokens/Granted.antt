-- ===== src/Auth/Tokens/Granted.antt =====
-- What the requests of internal/teams/auth/token.go and skype_token.go bring.
use matrix_teams.Prelude.{
  ◌≡◌, refl, false, ◌⊎◌, inl, inr, Option, none, some, List, is_nil, [], leb, ltb, ◌&&◌, Text,
  Bool-cases,
}
use matrix_teams.Auth.State.{AuthState}
use matrix_teams.Auth.Tokens.{
  AuthClient, TokenWeb, TokenError, TokenResponse, SkypeToken, SkypeTokenResponse, Answer, broken,
  answered, acquire_skype_token, on_skype_answer, skype_token_of, should_persist_graph_token,
  state_of_response, on_payload, on_token_answer, redirect_origin, token_request,
  refresh_access_token, scope_of,
}

module _ {S : Type 0} (web : TokenWeb S) where
  abbrev pub HasToken : (TokenError ⊎ SkypeToken) × S → Type 0
  HasToken (inl err, s) = Unit
  HasToken (inr t, s) = is_nil t.token ≡ false

  skype_token_of-HasToken :
      (p : Option SkypeTokenResponse) (s : S) → HasToken (skype_token_of web p s)
  unfolding skype_token_of
  skype_token_of-HasToken none s = tt
  skype_token_of-HasToken (some p) s = elim (Bool-cases (is_nil p.skype_token)) [
    | inl e ↦ rw e tt
    | inr e ↦ rw e e
  ]

  on_skype_answer-HasToken : (r : Answer SkypeTokenResponse × S) → HasToken (on_skype_answer web r)
  unfolding on_skype_answer
  on_skype_answer-HasToken (broken, s) = tt
  on_skype_answer-HasToken (answered status p, s) =
      elim (Bool-cases (leb 200 status && ltb status 300)) [
        | inl e ↦ rw e (skype_token_of-HasToken p s)
        | inr e ↦ rw e tt
      ]

  -- An answer of AcquireSkypeToken has a token.
  pub acquire_skype_token-HasToken :
      (c : AuthClient) (token : Text) (s : S) → HasToken (acquire_skype_token web c token s)
  unfolding acquire_skype_token
  acquire_skype_token-HasToken c token s = elim (Bool-cases (is_nil c.skype_token_endpoint)) [
    | inl e ↦ rw e tt
    | inr e ↦ rw e (elim (Bool-cases (is_nil token)) [
      | inl f ↦ rw f tt
      | inr f ↦ rw f (on_skype_answer-HasToken (web.post_bearer c.skype_token_endpoint token s))
    ])
  ]

  -- The tokens without one for Graph.
  abbrev pub HasNoGraph : (TokenError ⊎ AuthState) × S → Type 0
  HasNoGraph (inl err, s) = Unit
  HasNoGraph (inr state, s) = state.graph_access_token ≡ []

  on_payload-HasNoGraph :
      (scope : Text) (p : Option TokenResponse) (s : S)
      → should_persist_graph_token scope ≡ false
      → HasNoGraph (on_payload web scope p s)
  unfolding on_payload state_of_response
  on_payload-HasNoGraph scope none s h = tt
  on_payload-HasNoGraph scope (some p) s h = elim (Bool-cases (is_nil p.access_token)) [
    | inl e ↦ rw e tt
    | inr e ↦ rw e (rw h refl)
  ]

  on_token_answer-HasNoGraph :
      (scope : Text) (r : Answer TokenResponse × S)
      → should_persist_graph_token scope ≡ false
      → HasNoGraph (on_token_answer web scope r)
  unfolding on_token_answer
  on_token_answer-HasNoGraph scope (broken, s) h = tt
  on_token_answer-HasNoGraph scope (answered status p, s) h =
      elim (Bool-cases (leb 200 status && ltb status 300)) [
        | inl e ↦ rw e (on_payload-HasNoGraph scope p s h)
        | inr e ↦ rw e tt
      ]

  token_request-HasNoGraph :
      (c : AuthClient) (scope : Text) (values : List (Text × Text)) (s : S)
      → should_persist_graph_token scope ≡ false
      → HasNoGraph (token_request web c scope values s)
  unfolding token_request
  token_request-HasNoGraph c scope values s h =
      on_token_answer-HasNoGraph scope
        (web.post_form c.token_endpoint (redirect_origin web c.redirect_uri) values s) h

  -- A refresh for scopes that Graph has no part in brings no token for Graph.
  pub refresh_access_token-HasNoGraph :
      (c : AuthClient) (token : Text) (s : S)
      → should_persist_graph_token (scope_of c.scopes) ≡ false
      → HasNoGraph (refresh_access_token web c token s)
  unfolding refresh_access_token
  refresh_access_token-HasNoGraph c token s h = elim (Bool-cases (is_nil token)) [
    | inl e ↦ rw e tt
    | inr e ↦ rw e (token_request-HasNoGraph c (scope_of c.scopes) _ s h)
  ]
