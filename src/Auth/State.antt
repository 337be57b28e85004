-- ===== src/Auth/State.antt =====
-- AuthState and NormalizeTeamsUserID of internal/teams/auth/state.go, and mergeAuthState of msal.go.
use matrix_teams.Prelude.{
  if◌then◌else◌, is_nil, ℤ, pos, [], ◌++◌, Text, codes, trim_space, has_prefix,
}

pub record AuthState : Type 0 where
  pub access_token : Text
  pub refresh_token : Text
  pub expires_at_unix : ℤ
  pub id_token : Text
  pub skype_token : Text
  pub skype_token_expires_at : ℤ
  pub graph_access_token : Text
  pub graph_expires_at : ℤ
  pub teams_user_id : Text

abbrev pub no_state : AuthState
no_state = record {
  access_token = [];
  refresh_token = [];
  expires_at_unix = pos 0;
  id_token = [];
  skype_token = [];
  skype_token_expires_at = pos 0;
  graph_access_token = [];
  graph_expires_at = pos 0;
  teams_user_id = [];
}

-- NormalizeTeamsUserID
unfoldable pub normalize_teams_user_id : Text → Text
unfolding has_prefix trim_space
normalize_teams_user_id value =
    let trimmed = trim_space value in
    if is_nil trimmed
    then []
    else if has_prefix trimmed (codes "8:")
    then trimmed
    else codes "8:" ++ trimmed

-- mergeAuthState: the destination with what it lacks from the source.
unfoldable pub merge_auth_state : AuthState → AuthState → AuthState
merge_auth_state destination source = record {
  access_token =
      if is_nil destination.access_token then source.access_token else destination.access_token;
  expires_at_unix =
      if is_nil destination.access_token
      then source.expires_at_unix
      else destination.expires_at_unix;
  refresh_token =
      if is_nil destination.refresh_token then source.refresh_token else destination.refresh_token;
  id_token = if is_nil destination.id_token then source.id_token else destination.id_token;
  skype_token =
      if is_nil destination.skype_token then source.skype_token else destination.skype_token;
  skype_token_expires_at =
      if is_nil destination.skype_token
      then source.skype_token_expires_at
      else destination.skype_token_expires_at;
  graph_access_token =
      if is_nil destination.graph_access_token
      then source.graph_access_token
      else destination.graph_access_token;
  graph_expires_at =
      if is_nil destination.graph_access_token
      then source.graph_expires_at
      else destination.graph_expires_at;
  teams_user_id =
      if is_nil destination.teams_user_id then source.teams_user_id else destination.teams_user_id;
}
