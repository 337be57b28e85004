-- ===== src/Auth/Extraction.antt =====
-- ExtractTokensFromMSALLocalStorage of internal/teams/auth/msal.go, on a parsed storage.
use matrix_teams.Prelude.{
  ℕ, Bool, ◌&&◌, ◌⊎◌, inl, inr, Option, none, some, List, [], ◌∷◌, ◌++◌, if◌then◌else◌, is_nil,
  length, drop, ◌==◌, ℤ, pos, negsuc, Text, codes, trim_space, contains, has_prefix, lookup,
}
use matrix_teams.Auth.State.{AuthState, no_state, merge_auth_state}
use matrix_teams.Auth.Msal.{
  Storage, Decoders, MsalTokenKeys, MsalTokenEntry, MsalCacheEncryptionKey, MsalError,
  keys_not_found, no_refresh_token_keys, refresh_token_secret_missing, undecodable,
  parse_msal_expires, read_msal_entry, select_mbi_access_token, select_graph_access_token,
}
use matrix_teams.Auth.TeamsCache.{CacheDecoders, extract_teams_auth_tokens}

-- What stands behind the first occurrence of a text.
behind : Text → Text → Option Text
behind marker [] = none
behind marker (c ∷ s) =
    let rest = behind marker s in
    if has_prefix (c ∷ s) marker then some (drop (length marker) (c ∷ s)) else rest

client_of : Option Text → Text → Text
client_of none rest = rest
client_of (some id) rest = id

-- resolveMSALClientID
client_in : Storage → Text
unfolding behind client_of
client_in [] = []
client_in ((key, raw) ∷ storage) = client_of (behind (codes ".token.keys.") key) (client_in storage)

pub resolve_msal_client_id : Storage → Text → Text
unfolding client_in
resolve_msal_client_id storage client_id =
    if is_nil (trim_space client_id) then client_in storage else client_id

-- The first entry whose key passes a test.
first_entry : (Text → Bool) → Storage → Option Text
first_entry p [] = none
first_entry p ((key, raw) ∷ storage) =
    let rest = first_entry p storage in if p key then some raw else rest

or_else : Option Text → Option Text → Option Text
or_else none other = other
or_else (some s) other = some s

-- findMSALKeys
pub find_msal_keys : Storage → Text → Option Text
unfolding first_entry or_else
find_msal_keys storage client_id =
    let own =
      if is_nil client_id then none else lookup storage (codes "msal.token.keys." ++ client_id) in
    let new = first_entry (λ key. has_prefix key (codes "msal.token.keys.")) storage in
    let old =
      first_entry (λ key. has_prefix key (codes "msal.") && contains key (codes ".token.keys."))
        storage in
    or_else own (or_else new old)

module _ (cd : CacheDecoders) where
  abbrev dc : Decoders
  dc = cd.msal

  cache_key_of : Text → Option (List ℕ) → Option MsalCacheEncryptionKey
  cache_key_of id none = none
  cache_key_of id (some key) = some (record { id = id; key = key })

  of_cookie : Option (Text × Text) → Option MsalCacheEncryptionKey
  unfolding cache_key_of
  of_cookie none = none
  of_cookie (some (id, key)) = if is_nil key then none else cache_key_of id (dc.base64 key)

  text_at : Option Text → Text
  text_at none = []
  text_at (some s) = trim_space s

  -- extractMSALEncryptionKey
  pub extract_msal_encryption_key : Storage → Option MsalCacheEncryptionKey
  unfolding of_cookie text_at
  extract_msal_encryption_key storage =
      let raw = text_at (lookup storage (codes "__mautrix_teams_msal_cache_encryption")) in
      if is_nil raw then none else of_cookie (dc.cookie raw)

  expiry_in : Option ℤ → ℤ → ℤ
  expiry_in none expiry = expiry
  expiry_in (some t) expiry = t

  non_zero : ℤ → ℤ → ℤ
  non_zero (pos n) expiry = if n == 0 then expiry else pos n
  non_zero (negsuc n) expiry = negsuc n

  abbrev with_access : Text × ℤ → AuthState → AuthState
  with_access (token, expiry) st =
      if is_nil token
      then st
      else record st { access_token = token; expires_at_unix = non_zero expiry st.expires_at_unix }

  abbrev with_graph : Text × ℤ → AuthState → AuthState
  with_graph (token, expiry) st = if is_nil token then st else record st {
    graph_access_token = token;
    graph_expires_at = non_zero expiry st.graph_expires_at;
  }

  with_id_token : MsalError ⊎ MsalTokenEntry → AuthState → AuthState
  with_id_token (inl err) st = st
  with_id_token (inr e) st = record st { id_token = e.secret }

  with_id_tokens :
      Storage → Text → Option MsalCacheEncryptionKey → List Text → AuthState → AuthState
  unfolding with_id_token
  with_id_tokens storage client_id cache_key [] st = st
  with_id_tokens storage client_id cache_key (key ∷ keys) st =
      with_id_token (read_msal_entry dc storage key client_id cache_key) st

  of_refresh :
      Storage
      → Text
      → Option MsalCacheEncryptionKey
      → MsalTokenKeys
      → MsalError ⊎ MsalTokenEntry
      → MsalError ⊎ AuthState
  unfolding expiry_in non_zero with_id_tokens
  of_refresh storage client_id cache_key keys (inl err) = inl err
  of_refresh storage client_id cache_key keys (inr refresh) =
      let st = record no_state {
        refresh_token = refresh.secret;
        expires_at_unix = expiry_in (parse_msal_expires dc refresh.expires_on) (pos 0);
      } in
      let st1 =
        with_access (select_mbi_access_token dc storage keys.access_token client_id cache_key) st in
      let st2 =
        with_graph (select_graph_access_token dc storage keys.access_token client_id cache_key)
          st1 in
      if is_nil refresh.secret
      then inl refresh_token_secret_missing
      else inr (with_id_tokens storage client_id cache_key keys.id_token st2)

  of_refresh_keys :
      Storage
      → Text
      → Option MsalCacheEncryptionKey
      → MsalTokenKeys
      → List Text
      → MsalError ⊎ AuthState
  unfolding of_refresh
  of_refresh_keys storage client_id cache_key keys [] = inl no_refresh_token_keys
  of_refresh_keys storage client_id cache_key keys (key ∷ rest) =
      of_refresh storage client_id cache_key keys
        (read_msal_entry dc storage key client_id cache_key)

  of_keys : Storage → Text → Option MsalTokenKeys → MsalError ⊎ AuthState
  unfolding of_refresh_keys
  of_keys storage client_id none = inl undecodable
  of_keys storage client_id (some keys) =
      of_refresh_keys storage client_id (extract_msal_encryption_key storage) keys
        keys.refresh_token

  of_keys_entry : Storage → Text → Option Text → MsalError ⊎ AuthState
  unfolding of_keys
  of_keys_entry storage client_id none = inl keys_not_found
  of_keys_entry storage client_id (some entry) = of_keys storage client_id (dc.token_keys entry)

  -- extractMSALTokens
  pub extract_msal_tokens : Storage → Text → MsalError ⊎ AuthState
  unfolding of_keys_entry
  extract_msal_tokens storage client_id =
      of_keys_entry storage client_id (find_msal_keys storage client_id)

  abbrev merged_msal : MsalError ⊎ AuthState → AuthState → AuthState
  merged_msal (inl err) st = st
  merged_msal (inr source) st = merge_auth_state st source

  abbrev merged_teams : Option AuthState → AuthState → AuthState
  merged_teams none st = st
  merged_teams (some source) st = merge_auth_state st source

  -- ExtractTokensFromMSALLocalStorage: `none` is its error.
  pub extract_tokens_from_msal_local_storage : Storage → Text → Option AuthState
  extract_tokens_from_msal_local_storage storage client_id =
      let id = resolve_msal_client_id storage client_id in
      let st1 = merged_msal (extract_msal_tokens storage id) no_state in
      let st = merged_teams (extract_teams_auth_tokens cd storage) st1 in
      if is_nil st.refresh_token && is_nil st.access_token && is_nil st.skype_token
      then none
      else some st
