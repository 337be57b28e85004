-- ===== src/Auth/TeamsCache.antt =====
-- internal/teams/auth/teams_cache.go: the tokens of Teams' own cache in the local storage.
use matrix_teams.Prelude.{
  ℕ, Bool, not, ◌&&◌, ◌||◌, Option, none, some, List, [], ◌∷◌, if◌then◌else◌, is_nil, length, drop,
  ◌==◌, ◌/◌, ◌%◌, ltb, ℤ, pos, negsuc, ltb_ℤ, Text, codes, text_eq, trim_space, to_lower, contains,
  has_prefix, has_suffix,
}
use matrix_teams.Go.Strconv.{parse_int}
use matrix_teams.Auth.State.{AuthState, no_state}
use matrix_teams.Auth.Msal.{Storage, Decoders, parse_msal_expires}
use matrix_teams.Auth.Padding.{unpad_pkcs7}

-- teamsAuthCacheItem; the three expiries are raw JSON.
pub record TeamsAuthCacheItem : Type 0 where
  pub token : Text
  pub skype_token : Text
  pub encrypted_token : Text
  pub iv : Text
  pub expiration : Text
  pub token_expiration : Text
  pub expires_on : Text
  pub skype_id : Text
  pub user_id : Text

-- The decoders of a wrapper, of an exported key and of the primary user; AES in CBC mode, which fails
-- for a key of the wrong size; and the test for UTF-8 with the text of the bytes.
pub record CacheDecoders : Type 0 where
  pub msal : Decoders
  pub item : Text → Option TeamsAuthCacheItem
  pub exported_key : Text → Option Text
  pub primary_user : Text → Option Text
  pub aes_cbc : List ℕ → List ℕ → List ℕ → Option (List ℕ)
  pub utf8 : List ℕ → Option Text

-- teamsAuthCacheUser: what stands in front of the next dot.
before_dot : Text → Option Text
before_dot [] = none
before_dot (c ∷ s) = elim (before_dot s) [
  | none ↦ if c == b'.' then some [] else none
  | some r ↦ if c == b'.' then some [] else some (c ∷ r)
]

text_or_nil : Option Text → Text
text_or_nil none = []
text_or_nil (some s) = s

unfoldable pub teams_auth_cache_user : Text → Text
unfolding before_dot text_or_nil
teams_auth_cache_user storage_key =
    if has_prefix (to_lower storage_key) (codes "tmp.auth.v1.")
    then text_or_nil (before_dot (drop 12 storage_key))
    else []

-- shouldReplaceCachedToken
unfoldable pub should_replace_cached_token : Text → ℤ → ℤ → Bool
should_replace_cached_token current current_expiry candidate_expiry =
    is_nil current || ltb_ℤ current_expiry candidate_expiry

-- strings.Trim(s, `"`)
trim_quotes_left : Text → Text
trim_quotes_left [] = []
trim_quotes_left (c ∷ s) = let rest = trim_quotes_left s in if c == b'"' then rest else c ∷ s

trim_quotes_right : Text → Text
trim_quotes_right [] = []
trim_quotes_right (c ∷ s) =
    let rest = trim_quotes_right s in if is_nil rest && c == b'"' then [] else c ∷ rest

-- Milliseconds are cut to seconds.
in_seconds : ℤ → ℤ
in_seconds (negsuc n) = negsuc n
in_seconds (pos n) = if ltb 1_000_000_000_000 n then pos (n / 1000) else pos n

first_filled : Text → Text → Text
first_filled a b = if is_nil (trim_space a) then (if is_nil (trim_space b) then [] else b) else a

module _ (dc : CacheDecoders) where
  expiry_or : ℤ → Option ℤ → ℤ
  expiry_or rest none = rest
  expiry_or rest (some value) = value

  number_or : Text → ℤ → Option ℤ → ℤ
  unfolding in_seconds expiry_or
  number_or trimmed rest (some value) = in_seconds value
  number_or trimmed rest none = expiry_or rest (parse_msal_expires dc.msal trimmed)

  -- parseTeamsAuthExpiry
  pub parse_teams_auth_expiry : List Text → ℤ
  unfolding trim_quotes_left trim_quotes_right number_or
  parse_teams_auth_expiry [] = pos 0
  parse_teams_auth_expiry (raw ∷ values) =
      let rest = parse_teams_auth_expiry values in
      let trimmed = trim_quotes_right (trim_quotes_left (trim_space raw)) in
      if is_nil trimmed || text_eq trimmed (codes "null")
      then rest
      else number_or trimmed rest (parse_int trimmed)

  as_text : Option Text → Option Text
  as_text none = none
  as_text (some s) = if is_nil (trim_space s) then none else some s

  unpadded : Option (List ℕ) → Option Text
  unfolding as_text
  unpadded none = none
  unpadded (some bytes) = as_text (dc.utf8 bytes)

  decrypted_with : Option (List ℕ) → Option Text
  unfolding unpadded
  decrypted_with none = none
  decrypted_with (some plaintext) = unpadded (unpad_pkcs7 plaintext 16)

  with_parts : List ℕ → Option (List ℕ) → Option (List ℕ) → Option Text
  unfolding decrypted_with
  with_parts base_key none iv = none
  with_parts base_key (some ciphertext) none = none
  with_parts base_key (some ciphertext) (some iv) =
      if not (length iv == 16)
      then none
      else if is_nil ciphertext || not (length ciphertext % 16 == 0)
      then none
      else decrypted_with (dc.aes_cbc base_key iv ciphertext)

  -- decryptTeamsAuthToken: `none` is its error.
  pub decrypt_teams_auth_token : List ℕ → Text → Text → Option Text
  unfolding with_parts
  decrypt_teams_auth_token base_key encrypted_token encoded_iv =
      with_parts base_key (dc.msal.base64 encrypted_token) (dc.msal.base64 encoded_iv)

  -- The token of an item; empty where there is none.
  token_of : List ℕ → Bool → TeamsAuthCacheItem → Text
  unfolding text_or_nil
  token_of base_key is_skype_token item =
      let plain = if is_skype_token then item.skype_token else item.token in
      if is_nil plain
        && not (is_nil item.encrypted_token)
        && not (is_nil item.iv)
        && not (is_nil base_key)
      then text_or_nil (decrypt_teams_auth_token base_key item.encrypted_token item.iv)
      else plain

  -- A token takes its place in the state, where it expires later than the one there.
  pub place : Text → Bool → TeamsAuthCacheItem → Text → AuthState → AuthState
  unfolding first_filled
  place lower_key is_skype_token item token st =
      let expires_at =
        parse_teams_auth_expiry (item.token_expiration ∷ item.expiration ∷ item.expires_on ∷ []) in
      if is_skype_token
      then (if should_replace_cached_token st.skype_token st.skype_token_expires_at expires_at
          then record st {
            skype_token = token;
            skype_token_expires_at = expires_at;
            teams_user_id = first_filled item.user_id item.skype_id;
          }
          else st)
      else if contains lower_key (codes "graph.microsoft.com")
      then (if should_replace_cached_token st.graph_access_token st.graph_expires_at expires_at
          then record st { graph_access_token = token; graph_expires_at = expires_at }
          else st)
      else if contains lower_key (codes "spaces.skype.com")
      then (if should_replace_cached_token st.access_token st.expires_at_unix expires_at
          then record st { access_token = token; expires_at_unix = expires_at }
          else st)
      else st

  take_item : List ℕ → Text → Bool → Option TeamsAuthCacheItem → AuthState → AuthState
  unfolding token_of place
  take_item base_key lower_key is_skype_token none st = st
  take_item base_key lower_key is_skype_token (some item) st =
      let token = token_of base_key is_skype_token item in
      if is_nil token then st else place lower_key is_skype_token item token st

  -- One entry of the storage.
  take_entry : List ℕ → Text → Text → Text → AuthState → AuthState
  unfolding take_item
  take_entry base_key primary_user storage_key raw st =
      let lower_key = to_lower storage_key in
      let is_skype_token = has_suffix lower_key (codes ".discover.skype-token") in
      let cache_user = teams_auth_cache_user storage_key in
      if not is_skype_token && not (contains lower_key (codes ".token."))
      then st
      else if not (is_nil primary_user)
          && not (is_nil cache_user)
          && not (text_eq cache_user primary_user)
      then st
      else take_item base_key lower_key is_skype_token (dc.item raw) st

  take_entries : List ℕ → Text → Storage → AuthState → AuthState
  unfolding take_entry
  take_entries base_key primary_user [] st = st
  take_entries base_key primary_user ((key, raw) ∷ storage) st =
      take_entries base_key primary_user storage (take_entry base_key primary_user key raw st)

  exported : Option Text → Option (List ℕ)
  exported none = none
  exported (some key) = dc.msal.base64 key

  first_key : Option (List ℕ) → List ℕ → List ℕ
  first_key none rest = rest
  first_key (some key) rest = key

  -- extractTeamsAuthEncryptionKey
  pub extract_teams_auth_encryption_key : Storage → List ℕ
  unfolding exported first_key
  extract_teams_auth_encryption_key [] = []
  extract_teams_auth_encryption_key ((key, raw) ∷ storage) =
      let rest = extract_teams_auth_encryption_key storage in
      if has_suffix (to_lower key) (codes ".exportedencryptionkey.exportedencryptionkey")
      then first_key (exported (dc.exported_key raw)) rest
      else rest

  first_user : Option Text → Text → Text
  first_user none rest = rest
  first_user (some user) rest = trim_space user

  -- extractPrimaryTeamsAuthUser
  pub extract_primary_teams_auth_user : Storage → Text
  unfolding first_user
  extract_primary_teams_auth_user [] = []
  extract_primary_teams_auth_user ((key, raw) ∷ storage) =
      let rest = extract_primary_teams_auth_user storage in
      if has_suffix (to_lower key) (codes ".primaryuserid.primaryuserid")
      then first_user (dc.primary_user raw) rest
      else rest

  -- extractTeamsAuthTokens: `none` is its error.
  pub extract_teams_auth_tokens : Storage → Option AuthState
  unfolding take_entries
  extract_teams_auth_tokens storage =
      let st =
        take_entries (extract_teams_auth_encryption_key storage)
          (extract_primary_teams_auth_user storage) storage no_state in
      if is_nil st.skype_token && is_nil st.access_token && is_nil st.graph_access_token
      then none
      else some st
