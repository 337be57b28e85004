-- ===== src/Auth/Tokens/Examples.antt =====
-- Runs of internal/teams/auth/token.go and skype_token.go.
use matrix_teams.Prelude.{ℕ, ◌≡◌, refl, true, false, inl, none, some, [], pos, codes}
use matrix_teams.Auth.Tokens.{
  TokenWeb, answered, new_client, exchange_code, missing_code, refresh_access_token, non_2xx,
  has_valid_token, acquire_skype_token, missing_token,
}

web : TokenWeb ℕ
web = record {
  post_form = λ url origin form n. (answered 503 none, n);
  post_bearer = λ url token n.
      (answered 200 (some (record { skype_token = []; expires_in = pos 9; skype_id = [] })), n);
  now = λ n. pos 0;
  parse_url = λ url. none;
}

test_missing_code : (exchange_code web new_client [] (codes "v") 0).0 ≡ inl missing_code
unfolding exchange_code
test_missing_code = refl

test_refused : (refresh_access_token web new_client (codes "r") 0).0 ≡ inl (non_2xx 503)
unfolding refresh_access_token web
test_refused = refl

test_missing_token : (acquire_skype_token web new_client (codes "a") 0).0 ≡ inl missing_token
unfolding acquire_skype_token web
test_missing_token = refl

-- A minute before its end a token is no longer taken as valid.
test_skew : has_valid_token (codes "s") (pos 100) (pos 40_000_000_000) ≡ false
unfolding has_valid_token
test_skew = refl

test_valid : has_valid_token (codes "s") (pos 100) (pos 39_999_999_999) ≡ true
unfolding has_valid_token
test_valid = refl
