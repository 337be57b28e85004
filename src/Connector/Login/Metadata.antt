-- ===== src/Connector/Login/Metadata.antt =====
-- What is kept of a login: pkg/teamsid/dbmeta.go.
use matrix_teams.Prelude.{
  Bool, false, not, ◌⊎◌, inl, inr, [], if◌then◌else◌, is_nil, ℤ, pos, Text, trim_space,
}
use matrix_teams.Auth.Tokens.{has_valid_token}

-- UserLoginMetadata
pub record UserLoginMetadata : Type 0 where
  pub refresh_token : Text
  pub access_token_expires_at : ℤ
  pub oauth_client_id : Text
  pub skype_token : Text
  pub skype_token_expires_at : ℤ
  pub graph_access_token : Text
  pub graph_expires_at : ℤ
  pub teams_user_id : Text

abbrev pub no_metadata : UserLoginMetadata
no_metadata = record {
  refresh_token = [];
  access_token_expires_at = pos 0;
  oauth_client_id = [];
  skype_token = [];
  skype_token_expires_at = pos 0;
  graph_access_token = [];
  graph_expires_at = pos 0;
  teams_user_id = [];
}

-- GraphTokenValid
unfoldable pub graph_token_valid : UserLoginMetadata → ℤ → Bool
unfolding has_valid_token
graph_token_valid m now =
    if is_nil (trim_space m.graph_access_token)
    then false
    else has_valid_token m.graph_access_token m.graph_expires_at now

pub data GraphTokenError : Type 0 where
  graph_access_token_missing graph_access_token_expired : GraphTokenError

-- GetGraphAccessToken at a time
unfoldable pub get_graph_access_token : UserLoginMetadata → ℤ → GraphTokenError ⊎ Text
unfolding graph_token_valid
get_graph_access_token m now =
    if is_nil (trim_space m.graph_access_token)
    then inl graph_access_token_missing
    else if not (graph_token_valid m now)
    then inl graph_access_token_expired
    else inr (trim_space m.graph_access_token)
