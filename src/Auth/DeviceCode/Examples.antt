-- ===== src/Auth/DeviceCode/Examples.antt =====
-- Runs of the device-code login (internal/teams/auth/device_code.go).
use matrix_teams.Prelude.{
  ℕ, ◌*◌, ◌≡◌, refl, Bool, true, false, inl, inr, Option, none, some, List, [], ◌∷◌, is_nil, ℤ, pos,
  Text, codes, leb_ℤ, trim_space, arith, add64, text_eq,
}
use matrix_teams.Go.Time.{second}
use matrix_teams.Auth.DeviceCode.{
  TokenPayload, DeviceCodeClient, declined, ended, poll, granted, flexible_int64, five_seconds,
  on_refusal,
}
use matrix_teams.Auth.DeviceCode.Approval.{
  Session, pending, slow_down, approving, schedule, poll-granted, poll-HasToken,
}

abbrev client : DeviceCodeClient
client = record {
  client_id = [];
  resource = [];
  tenant = [];
  device_code_endpoint = [];
  token_endpoint = codes "https://token";
}

abbrev token : TokenPayload
token = record {
  access_token = codes "a";
  refresh_token = codes "r";
  id_token = [];
  expires_in = some (codes "\"3600\"");
  error = [];
}

abbrev begun : Session
begun = record { hints = pending ∷ slow_down ∷ pending ∷ []; waited = [] }

test_expiry : flexible_int64 token.expires_in ≡ some (pos 3600)
unfolding flexible_int64 trim_space text_eq matrix_teams.Go.Strconv.parse_int
test_expiry = refl

test_named : is_nil (trim_space (codes "d")) ≡ false
unfolding trim_space
test_named = refl

poll-granted_example : poll (approving token (pos 0)) client 4 (codes "d") five_seconds begun ≡ (
  some (inr (granted (pos 0) token (pos 3600))),
  record { hints = []; waited = schedule five_seconds begun.hints },
)
poll-granted_example =
    poll-granted token (pos 0) client (codes "d") 4 five_seconds begun.hints refl test_expiry
      test_named refl (omega arith)

test_schedule :
    schedule five_seconds begun.hints
    ≡ pos (5 * second) ∷ pos (5 * second) ∷ pos (10 * second) ∷ pos (10 * second) ∷ []
unfolding add64
test_schedule = refl

poll_found :
    (poll (approving token (pos 0)) client 4 (codes "d") five_seconds begun).0
    ≡ some (inr (granted (pos 0) token (pos 3600)))
poll_found = cc (poll-granted_example)

poll-HasToken_example : is_nil (granted (pos 0) token (pos 3600)).access_token ≡ false
poll-HasToken_example =
    poll-HasToken (approving token (pos 0)) client (codes "d") (granted (pos 0) token (pos 3600)) 4
      five_seconds begun poll_found

test_declined : on_refusal five_seconds (codes "access_denied") ≡ ended (inl declined)
unfolding on_refusal text_eq matrix_teams.Prelude.one_of
test_declined = refl
