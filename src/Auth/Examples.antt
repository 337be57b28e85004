-- ===== src/Auth/Examples.antt =====
-- Tokens in a small storage, and a padded block (internal/teams/auth).
use matrix_teams.Prelude.{
  ℕ, ◌≡◌, refl, ◌↔◌, ◌⊎◌, true, false, Option, none, some, inl, inr, List, [], ◌∷◌, ◌++◌, ℤ, pos,
  Text, codes, text_eq, All,
}
use matrix_teams.Auth.Msal.{
  Decoders, MsalTokenEntry, Storage, candidate, matches_mbi_target, select_mbi_access_token,
  parse_msal_expires,
}
use matrix_teams.Auth.Msal.Latest.{IsLatest, select_mbi_access_token-IsLatest}
use matrix_teams.Auth.Padding.{unpad_pkcs7, pad_pkcs7}
use matrix_teams.Auth.Padding.RoundTrip.{unpad_pkcs7_iff}

abbrev entry : Text → Text → MsalTokenEntry
entry secret expires_on = record {
  secret = secret;
  expires_on = expires_on;
  target = codes "https://x/Service::api.fl.spaces.skype.com::MBI_SSL";
}

-- An entry is its secret, which tells when it expires.
abbrev decoders : Decoders
decoders = record {
  token_keys = λ s. none;
  token_entry = λ s. some (entry s s);
  envelope = λ s. none;
  decrypt = λ k n d c. none;
  cookie = λ s. none;
  base64 = λ s. none;
  rfc3339 = λ s. none;
}

abbrev storage : Storage
storage = (codes "a", codes "5") ∷ (codes "b", codes "70") ∷ (codes "c", codes "9") ∷ []

abbrev keys : List Text
keys = codes "a" ∷ codes "b" ∷ codes "missing" ∷ codes "c" ∷ []

test_latest : select_mbi_access_token decoders storage keys [] none ≡ (codes "70", pos 70)
unfolding select_mbi_access_token matrix_teams.Auth.Msal.read_msal_entry matrix_teams.Prelude.lookup
    text_eq matrix_teams.Auth.Msal.decrypt_msal_entry_value matches_mbi_target
    matrix_teams.Prelude.contains matrix_teams.Prelude.to_lower parse_msal_expires
    matrix_teams.Go.Strconv.parse_int
test_latest = refl

select_mbi_access_token-IsLatest_example :
    IsLatest decoders
      (candidate decoders (matches_mbi_target decoders) storage [] none)
      keys
      (select_mbi_access_token decoders storage keys [] none)
select_mbi_access_token-IsLatest_example =
    select_mbi_access_token-IsLatest decoders storage [] none keys

abbrev content : List ℕ
content = 7 ∷ 8 ∷ []

test_padded : unpad_pkcs7 (pad_pkcs7 content 16) 16 ≡ some content
unfolding unpad_pkcs7 pad_pkcs7
test_padded = refl

unpad_pkcs7_iff_example :
    (unpad_pkcs7 (pad_pkcs7 content 16) 16 ≡ some content)
    ↔ (pad_pkcs7 content 16 ≡ pad_pkcs7 content 16)
unpad_pkcs7_iff_example = unpad_pkcs7_iff (pad_pkcs7 content 16) content
