-- ===== src/Connector/Login/Device.antt =====
-- The login by a device code: pkg/connector/device_code_login.go.
pub mod Complete
use matrix_teams.Prelude.{
  ℕ, Bool, true, false, ◌||◌, not, ◌⊎◌, inl, inr, Option, none, some, List, [], if◌then◌else◌,
  is_nil, ℤ, Text, codes, trim_space, words,
}
use matrix_teams.Go.Time.{seconds}
use matrix_teams.Auth.State.{AuthState, normalize_teams_user_id}
use matrix_teams.Auth.Tokens.{
  AuthClient, new_client, TokenWeb, TokenError, SkypeToken, refresh_access_token,
  acquire_skype_token,
}
use matrix_teams.Auth.DeviceCode.{
  DeviceCodeClient, DeviceCodeResponse, DeviceCodeError, Web, teams_personal_client_id, poll,
}
use matrix_teams.Auth.DeviceCode as DeviceCode
use matrix_teams.Connector.Login.{
  UserLoginMetadata, LoginError, LoginWeb, no_metadata, teams_personal_scope,
  teams_personal_token_url, refresh_access_token_for_graph_scope, rotated,
}

pub data DeviceLoginError : Type 0 where
  not_started canceled missing_refresh_token missing_teams_user_id no_login : DeviceLoginError
  start_failed poll_failed : DeviceCodeError → DeviceLoginError
  refresh_failed exchange_failed : TokenError → DeviceLoginError

-- DeviceCodeLogin; before Start there is no client.
pub record DeviceCodeLogin : Type 0 where
  pub client : Option DeviceCodeClient
  pub device_code : Text
  pub interval : ℤ
  pub canceled : Bool

-- newDeviceCodeClient
pub new_device_code_client : DeviceCodeClient
new_device_code_client = record {
  client_id = teams_personal_client_id;
  resource = codes "https://api.spaces.skype.com";
  tenant = codes "common";
  device_code_endpoint = [];
  token_endpoint = [];
}

-- Cancel
pub cancel : DeviceCodeLogin → DeviceCodeLogin
cancel l = record l { canceled = true }

-- The client for refresh grants of a personal account.
unfoldable pub personal_client : AuthClient
unfolding words
personal_client = record new_client {
  client_id = teams_personal_client_id;
  token_endpoint = teams_personal_token_url;
  redirect_uri = [];
  scopes = words teams_personal_scope;
}

-- User.NewLogin of the framework: whether it takes the identifier and the metadata.
module _ {S B : Type 0} (device : Web S B) (web : LoginWeb S)
    (new_login : Text → UserLoginMetadata → S → Bool × S) where
  challenged :
      DeviceCodeLogin
      → (DeviceCodeError ⊎ DeviceCodeResponse) × S
      → ((DeviceLoginError ⊎ DeviceCodeResponse) × DeviceCodeLogin) × S
  unfolding new_device_code_client seconds
  challenged l (inl err, s) =
      ((inl (start_failed err), record l { client = some new_device_code_client }), s)
  challenged l (inr challenge, s) = (
    (
      inr challenge,
      record l {
        client = some new_device_code_client;
        device_code = challenge.device_code;
        interval = seconds challenge.interval;
      },
    ),
    s,
  )

  -- Start; the answer is what the instructions show.
  pub start : DeviceCodeLogin → S → ((DeviceLoginError ⊎ DeviceCodeResponse) × DeviceCodeLogin) × S
  unfolding challenged
  start l s = challenged l (DeviceCode.start device new_device_code_client s)

  -- The answer of Wait; `none` is the end of the model's fuel.
  abbrev pub Waited : Type 0
  Waited = Option (DeviceLoginError ⊎ UserLoginMetadata) × S

  -- acquirePersonalTeamsSkypeToken
  with_skype :
      AuthState → (TokenError ⊎ SkypeToken) × S → (DeviceLoginError ⊎ (AuthState × SkypeToken)) × S
  with_skype state (inl err, s) = (inl (exchange_failed err), s)
  with_skype state (inr t, s) = (inr (state, t), s)

  on_refreshed :
      AuthClient → (TokenError ⊎ AuthState) × S → (DeviceLoginError ⊎ (AuthState × SkypeToken)) × S
  unfolding with_skype
  on_refreshed client (inl err, s) = (inl (refresh_failed err), s)
  on_refreshed client (inr state, s) =
      with_skype state (acquire_skype_token web.tokens client state.access_token s)

  pub acquire_personal_teams_skype_token :
      AuthClient → Text → S → (DeviceLoginError ⊎ (AuthState × SkypeToken)) × S
  unfolding on_refreshed
  acquire_personal_teams_skype_token client refresh_token s =
      on_refreshed client (refresh_access_token web.tokens client (trim_space refresh_token) s)

  -- the metadata of the login, before Graph
  personal_metadata : AuthState → AuthState → SkypeToken → UserLoginMetadata
  personal_metadata state personal t = record no_metadata {
    refresh_token = rotated web (trim_space state.refresh_token) personal.refresh_token;
    access_token_expires_at = personal.expires_at_unix;
    oauth_client_id = teams_personal_client_id;
    skype_token = t.token;
    skype_token_expires_at = t.expires_at;
    teams_user_id = normalize_teams_user_id t.skype_id;
  }

  -- what the request for a Graph token adds, if it succeeds
  add_graph : UserLoginMetadata → LoginError ⊎ AuthState → UserLoginMetadata
  add_graph m (inl err) = m
  add_graph m (inr graph) = record m {
    refresh_token = rotated web m.refresh_token graph.refresh_token;
    graph_access_token = trim_space graph.graph_access_token;
    graph_expires_at = graph.graph_expires_at;
  }

  on_new_login : UserLoginMetadata → Bool × S → Waited
  on_new_login m (true, s) = (some (inr m), s)
  on_new_login m (false, s) = (some (inl no_login), s)

  register : UserLoginMetadata → (LoginError ⊎ AuthState) × S → Waited
  unfolding add_graph on_new_login
  register m (graph, s) =
      let m' = add_graph m graph in on_new_login m' (new_login m'.teams_user_id m' s)

  on_personal : AuthState → (DeviceLoginError ⊎ (AuthState × SkypeToken)) × S → Waited
  unfolding register personal_metadata
  on_personal state (inl err, s) = (some (inl err), s)
  on_personal state (inr (personal, t), s) =
      let m = personal_metadata state personal t in
      if is_nil m.teams_user_id
      then (some (inl missing_teams_user_id), s)
      else register m (refresh_access_token_for_graph_scope web personal_client m.refresh_token s)

  on_polled : Option (DeviceCodeError ⊎ AuthState) × S → Waited
  unfolding on_personal acquire_personal_teams_skype_token
  on_polled (none, s) = (none, s)
  on_polled (some (inl err), s) = (some (inl (poll_failed err)), s)
  on_polled (some (inr state), s) =
      if is_nil (trim_space state.refresh_token)
      then (some (inl missing_refresh_token), s)
      else on_personal state
          (acquire_personal_teams_skype_token personal_client state.refresh_token s)

  wait_with : ℕ → DeviceCodeLogin → Option DeviceCodeClient → S → Waited
  unfolding on_polled
  wait_with fuel l none s = (some (inl not_started), s)
  wait_with fuel l (some client) s =
      if is_nil l.device_code
      then (some (inl not_started), s)
      else if l.canceled
      then (some (inl canceled), s)
      else on_polled (poll device client fuel l.device_code l.interval s)

  -- Wait, up to the connect that it starts; the answer is the metadata of the new login.
  unfoldable pub wait : ℕ → DeviceCodeLogin → S → Waited
  unfolding wait_with
  wait fuel l s = wait_with fuel l l.client s
