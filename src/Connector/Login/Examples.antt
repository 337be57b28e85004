-- ===== src/Connector/Login/Examples.antt =====
-- Runs of the renewal of tokens and of a device-code login (pkg/connector).
use matrix_teams.Prelude.{
  ℕ, zero, suc, ◌+◌, ◌++◌, ◌≡◌, refl, Bool, true, false, inl, inr, Option, none, some, List, [],
  ◌∷◌, is_nil, ℤ, pos, Text, codes, IsTrimmed, trim_space, has_prefix, text_eq, words, contains,
  has_suffix, to_lower, join,
}
use matrix_teams.Auth.State.{normalize_teams_user_id}
use matrix_teams.Auth.Tokens.{
  TokenResponse, SkypeTokenResponse, TokenWeb, Answer, broken, answered, has_valid_token,
  should_persist_graph_token, new_client, scope_of,
}
use matrix_teams.Auth.DeviceCode.{
  TokenPayload, Web, Posted, posted, DeviceCodeClient, poll, five_seconds, teams_personal_client_id,
}
use matrix_teams.Connector.Login.{
  UserLoginMetadata, no_metadata, LoginWeb, Login, ensure_valid_skype_token,
  ensure_valid_graph_token, get_graph_access_token, graph_access_token_missing, logout_remote,
  is_logged_in,
}
use matrix_teams.Connector.Login.Synced.{IsRenewable, connecting, graph_token, run}
use matrix_teams.Connector.Login.Rotation.{latest, run-latest}
use matrix_teams.Connector.Login.Apart.{SameGraph, SameTeams, renewals_apart}
use matrix_teams.Connector.Login.Device.{DeviceCodeLogin, new_device_code_client, wait}
use matrix_teams.Connector.Login.Device.Complete.{IsComplete, wait-IsComplete}

-- The n-th refresh rotates the token; skype tokens are refused.
abbrev rotating : ℕ → Answer TokenResponse × ℕ
rotating n = (
  answered 200 (
      some (record {
        access_token = codes "a";
        refresh_token = codes "r" ++ (b'0' + n) ∷ [];
        expires_in = pos 3600;
        id_token = [];
      })),
  n + 1,
)

abbrev tokens : Answer SkypeTokenResponse → TokenWeb ℕ
tokens skype = record {
  post_form = λ url origin form n. rotating n;
  post_bearer = λ url token n. (skype, n);
  now = λ n. pos 0;
  parse_url = λ url. none;
}

abbrev web : LoginWeb ℕ
web = record { tokens = tokens (answered 401 none); can_save = λ n. true; config_client_id = [] }

abbrev old : UserLoginMetadata
old = record no_metadata { refresh_token = codes "r"; teams_user_id = codes "8:me" }

abbrev login : Login ℕ
login = record { meta = old; stored = old; logged_in = false; states = []; world = 0 }

login-IsRenewable : IsRenewable login
unfolding trim_space
login-IsRenewable = record { synced = refl; trimmed = refl; present = refl }

run-latest_example :
    IsRenewable (run web (connecting ∷ graph_token ∷ []) login)
    × ((run web (connecting ∷ graph_token ∷ []) login).stored.refresh_token
        ≡ latest web (codes "r") (connecting ∷ graph_token ∷ []) login)
run-latest_example =
    run-latest web (λ n. refl) (connecting ∷ graph_token ∷ []) login login-IsRenewable

renewals_apart_example :
    SameGraph old (ensure_valid_skype_token web login).1.meta
    × SameTeams old (ensure_valid_graph_token web login).1.meta
renewals_apart_example = renewals_apart web login

-- The rotated token is stored although the skype token is refused.
test_stored : (ensure_valid_skype_token web login).1.stored.refresh_token ≡ codes "r0"
unfolding ensure_valid_skype_token has_valid_token trim_space
    matrix_teams.Auth.Tokens.refresh_access_token matrix_teams.Auth.Tokens.acquire_skype_token
    text_eq
test_stored = refl

test_missing : get_graph_access_token old (pos 0) ≡ inl graph_access_token_missing
unfolding get_graph_access_token trim_space
test_missing = refl

test_logged_out : is_logged_in web (logout_remote web login) ≡ false
unfolding is_logged_in logout_remote
test_logged_out = refl

test_persisted : should_persist_graph_token (scope_of new_client.scopes) ≡ true
unfolding should_persist_graph_token join
test_persisted = refl

-- A device-code login with an answer at once.
abbrev device : Web ℕ TokenPayload
device = record {
  post_form = λ url form n. (
    posted 200 (record {
      access_token = codes "a";
      refresh_token = codes "d";
      id_token = [];
      expires_in = none;
      error = [];
    }),
    n,
  );
  code_payload = λ b. none;
  token_payload = λ b. some b;
  wait = λ interval n. (true, n);
  now = λ n. pos 0;
}

abbrev login_web : LoginWeb ℕ
login_web = record web {
  tokens = tokens (
      answered 200
        (some (record { skype_token = codes "s"; expires_in = pos 60; skype_id = codes "me" })));
}

abbrev new_login : Text → UserLoginMetadata → ℕ → Bool × ℕ
new_login id m n = (true, n)

abbrev prompted : DeviceCodeLogin
prompted = record {
  client = some new_device_code_client;
  device_code = codes "d";
  interval = five_seconds;
  canceled = false;
}

abbrev made : UserLoginMetadata
made = record {
  refresh_token = codes "r1";
  access_token_expires_at = pos 3600;
  oauth_client_id = teams_personal_client_id;
  skype_token = codes "s";
  skype_token_expires_at = pos 60;
  graph_access_token = codes "a";
  graph_expires_at = pos 3600;
  teams_user_id = codes "8:me";
}

test_wait : (wait device login_web new_login 1 prompted 0).0 ≡ some (inr made)
unfolding wait poll trim_space matrix_teams.Auth.DeviceCode.poll_turn
    matrix_teams.Auth.Tokens.refresh_access_token matrix_teams.Auth.Tokens.acquire_skype_token
    matrix_teams.Connector.Login.Device.personal_client normalize_teams_user_id
    matrix_teams.Connector.Login.refresh_access_token_for_graph_scope matrix_teams.Prelude.mul64
    should_persist_graph_token join
test_wait = refl

wait-IsComplete_example : IsComplete made
wait-IsComplete_example = wait-IsComplete device login_web new_login 1 prompted 0 made test_wait
