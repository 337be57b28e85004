-- ===== src/Connector/Login.antt =====
-- The tokens of a login: ensureValidSkypeToken of pkg/connector/handleteams.go, graph_token.go,
-- oauth_refresh.go and token_refresh.go, the metadata of pkg/teamsid/dbmeta.go, and Connect, IsLoggedIn
-- and LogoutRemote of client.go.
mod Metadata
pub mod Device
pub mod Synced
pub mod Rotation
pub mod Apart
mod Examples
unfoldable pub use Metadata.*
use matrix_teams.Prelude.{
  ℕ, ◌*◌, Bool, true, false, ◌&&◌, ◌||◌, not, ◌⊎◌, inl, inr, Option, none, some, List, [], ◌∷◌,
  ◌++◌, if◌then◌else◌, is_nil, ◌==◌, ℤ, pos, negsuc, ltb_ℤ, ◌+ℤ◌, Text, codes, text_eq, trim_space,
  words,
}
use matrix_teams.Auth.State.{AuthState, normalize_teams_user_id}
use matrix_teams.Auth.Tokens.{
  AuthClient, new_client, TokenWeb, TokenError, SkypeToken, refresh_access_token,
  acquire_skype_token, has_valid_token, is_unset,
}
use matrix_teams.Auth.DeviceCode.{teams_personal_client_id}

abbrev pub teams_personal_scope : Text
teams_personal_scope =
    codes "service::api.fl.spaces.skype.com::MBI_SSL openid profile offline_access"

abbrev pub teams_personal_token_url : Text
teams_personal_token_url =
    codes "https://login.microsoftonline.com/9188040d-6c67-4c5b-b112-36a304b66dad/oauth2/v2.0/token"

abbrev graph_files_read_write_scope : Text
graph_files_read_write_scope = codes "https://graph.microsoft.com/Files.ReadWrite"

-- newRefreshAuthClient, with the client identifier of the configuration
new_refresh_auth_client : Text → UserLoginMetadata → AuthClient
new_refresh_auth_client config_client_id m =
    let own = trim_space m.oauth_client_id in
    let configured = trim_space config_client_id in
    if is_nil own
    then (if is_nil configured then new_client else record new_client { client_id = configured })
    else if text_eq own teams_personal_client_id
    then record new_client {
      client_id = own;
      redirect_uri = [];
      token_endpoint = teams_personal_token_url;
    }
    else record new_client { client_id = own }

-- skypeRefreshScopes
pub skype_refresh_scopes : UserLoginMetadata → List Text
skype_refresh_scopes m =
    if text_eq (trim_space m.oauth_client_id) teams_personal_client_id
    then words teams_personal_scope
    else codes "service::api.fl.spaces.skype.com::MBI_SSL" ∷ codes "offline_access" ∷ []

pub data LoginError : Type 0 where
  missing_refresh_token incomplete_graph_token save_failed : LoginError
  token : TokenError → LoginError
  graph_refresh : TokenError → TokenError → LoginError

-- The HTTP client and the database: a save takes the metadata or fails.
pub record LoginWeb (S : Type 0) : Type 0 where
  pub tokens : TokenWeb S
  pub can_save : S → Bool
  pub config_client_id : Text

-- What the bridge shows of the login.
pub data BridgeState : Type 0 where
  connecting_state connected_state bad_credentials_state : BridgeState

-- A login: its metadata in memory and in the database, the flag of the client, the states
-- that the bridge was sent, and the world.
pub record Login (S : Type 0) : Type 0 where
  pub meta : UserLoginMetadata
  pub stored : UserLoginMetadata
  pub logged_in : Bool
  pub states : List BridgeState
  pub world : S

module _ {S : Type 0} (web : LoginWeb S) where
  abbrev pub Answer : Type 0
  Answer = Option LoginError × Login S

  -- Login.Save
  pub save : Login S → Bool × Login S
  save l = if web.can_save l.world then (true, record l { stored = l.meta }) else (false, l)

  -- refreshAccessTokenForGraphScope
  on_fallback : TokenError → (TokenError ⊎ AuthState) × S → (LoginError ⊎ AuthState) × S
  on_fallback err (inl fallback_err, s) = (inl (graph_refresh err fallback_err), s)
  on_fallback err (inr refreshed, s) = (inr refreshed, s)

  on_first : AuthClient → Text → (TokenError ⊎ AuthState) × S → (LoginError ⊎ AuthState) × S
  unfolding on_fallback
  on_first client refresh_token (inr refreshed, s) = (inr refreshed, s)
  on_first client refresh_token (inl err, s) = on_fallback err (
      refresh_access_token web.tokens
        (record client {
          scopes =
              codes "openid"
              ∷ codes "profile"
              ∷ codes "offline_access"
              ∷ graph_files_read_write_scope
              ∷ [];
        })
        refresh_token s)

  pub refresh_access_token_for_graph_scope : AuthClient → Text → S → (LoginError ⊎ AuthState) × S
  unfolding on_first
  refresh_access_token_for_graph_scope client refresh_token s = on_first client refresh_token (
      refresh_access_token web.tokens
        (record client { scopes = graph_files_read_write_scope ∷ codes "offline_access" ∷ [] })
        refresh_token s)

  -- a refresh token that came with an answer replaces the old one
  abbrev rotated : Text → Text → Text
  rotated old new = if is_nil (trim_space new) then old else trim_space new

  saved_graph : Bool × Login S → Answer
  saved_graph (true, l) = (none, l)
  saved_graph (false, l) = (some save_failed, l)

  pub on_renewed_graph : Login S → (LoginError ⊎ AuthState) × S → Answer
  unfolding save saved_graph
  on_renewed_graph l (inl err, s) = (some err, record l { world = s })
  on_renewed_graph l (inr refreshed, s) =
      if is_nil (trim_space refreshed.graph_access_token) || is_unset refreshed.graph_expires_at
      then (some incomplete_graph_token, record l { world = s })
      else saved_graph (
          save (record l {
            world = s;
            meta = record l.meta {
              refresh_token = rotated l.meta.refresh_token refreshed.refresh_token;
              graph_access_token = trim_space refreshed.graph_access_token;
              graph_expires_at = refreshed.graph_expires_at;
            };
          }))

  -- ensureValidGraphToken
  pub ensure_valid_graph_token : Login S → Answer
  unfolding on_renewed_graph new_refresh_auth_client refresh_access_token_for_graph_scope
  ensure_valid_graph_token l =
      let refresh_token = trim_space l.meta.refresh_token in
      if graph_token_valid l.meta (web.tokens.now l.world)
      then (none, l)
      else if is_nil refresh_token
      then (some missing_refresh_token, l)
      else on_renewed_graph l (
          refresh_access_token_for_graph_scope (new_refresh_auth_client web.config_client_id l.meta)
            refresh_token l.world)

  -- the metadata with a skype token and what came with the access token
  with_skype_token : AuthState → SkypeToken → UserLoginMetadata → UserLoginMetadata
  with_skype_token state t m =
      let has_graph =
        not (is_nil (trim_space state.graph_access_token))
        && not (is_unset state.graph_expires_at) in
      record m {
        access_token_expires_at = state.expires_at_unix;
        skype_token = t.token;
        skype_token_expires_at = t.expires_at;
        graph_access_token =
            if has_graph then trim_space state.graph_access_token else m.graph_access_token;
        graph_expires_at = if has_graph then state.graph_expires_at else m.graph_expires_at;
        teams_user_id = normalize_teams_user_id t.skype_id;
      }

  -- `l` has the rotated refresh token, `old` is the one that was sent.
  pub on_skype_token : Text → AuthState → Login S → (TokenError ⊎ SkypeToken) × S → Answer
  unfolding save with_skype_token
  on_skype_token old state l (inl err, s) =
      let l' = record l { world = s } in
      if is_nil (trim_space state.refresh_token)
      then (some (token err), l')
      else if text_eq l.meta.refresh_token old
      then (some (token err), l')
      else (some (token err), (save l').1)
  on_skype_token old state l (inr t, s) =
      (none, (save (record l { world = s; meta = with_skype_token state t l.meta })).1)

  pub on_access_token : AuthClient → Text → Login S → (TokenError ⊎ AuthState) × S → Answer
  unfolding on_skype_token
  on_access_token client old l (inl err, s) = (some (token err), record l { world = s })
  on_access_token client old l (inr state, s) =
      on_skype_token old state
        (record l {
          meta = record l.meta { refresh_token = rotated l.meta.refresh_token state.refresh_token };
        })
        (acquire_skype_token web.tokens client state.access_token s)

  -- ensureValidSkypeToken, on a login with metadata
  pub ensure_valid_skype_token : Login S → Answer
  unfolding on_access_token new_refresh_auth_client
  ensure_valid_skype_token l =
      let m = l.meta in
      let refresh = trim_space m.refresh_token in
      let client = record (new_refresh_auth_client web.config_client_id m) {
        scopes = skype_refresh_scopes m;
      } in
      if has_valid_token m.skype_token m.skype_token_expires_at (web.tokens.now l.world)
      then (none, l)
      else if is_nil refresh
      then (some missing_refresh_token, l)
      else on_access_token client refresh l (refresh_access_token web.tokens client refresh l.world)

  send_state : BridgeState → Login S → Login S
  send_state state l = record l { states = l.states ++ (state ∷ []) }

  set_logged_in : Answer → Answer
  unfolding send_state
  set_logged_in (none, l) = (none, send_state connected_state (record l { logged_in = true }))
  set_logged_in (some err, l) =
      (some err, send_state bad_credentials_state (record l { logged_in = false }))

  -- Connect, up to the start of the sync loop, which it makes where there is no error
  pub connect : Login S → Answer
  unfolding set_logged_in send_state
  connect l = set_logged_in (ensure_valid_skype_token (send_state connecting_state l))

  -- IsLoggedIn
  pub is_logged_in : Login S → Bool
  unfolding has_valid_token
  is_logged_in l =
      l.logged_in
      || has_valid_token l.meta.skype_token l.meta.skype_token_expires_at (web.tokens.now l.world)

  -- LogoutRemote, behind the stop of the sync loop
  pub logout_remote : Login S → Login S
  unfolding save
  logout_remote l = record ((save (record l { meta = no_metadata })).1) { logged_in = false }
