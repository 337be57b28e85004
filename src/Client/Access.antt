-- ===== src/Client/Access.antt =====
-- The fields of Client (internal/teams/client/conversations.go) that its requests read, and the
-- addresses that its files name.
use matrix_teams.Prelude.{Bool, [], ◌∷◌, ◌==◌, if◌then◌else◌, is_nil, Text, codes}

pub record Access : Type 0 where
  pub has_http : Bool
  pub token : Text
  pub messages_url : Text
  pub send_messages_url : Text
  pub consumption_horizons_url : Text

abbrev pub default_messages_url : Text
default_messages_url = codes "https://msgapi.teams.live.com/v1/users/ME/conversations"

abbrev pub default_send_messages_url : Text
default_send_messages_url =
    codes "https://teams.live.com/api/chatsvc/consumer/v1/users/ME/conversations"

abbrev pub default_consumption_horizons_url : Text
default_consumption_horizons_url = codes "https://teams.live.com/api/chatsvc/consumer/v1/threads"

-- strings.TrimSuffix(s, "/")
trim_slash : Text → Text
trim_slash [] = []
trim_slash (c ∷ []) = if c == b'/' then [] else c ∷ []
trim_slash (c ∷ d ∷ s) = c ∷ trim_slash (d ∷ s)

-- The configured address, or else the default, without a slash at its end.
unfoldable pub base_url : Text → Text → Text
unfolding trim_slash
base_url configured default = trim_slash (if is_nil configured then default else configured)
