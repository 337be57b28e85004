-- ===== src/Auth/Msal.antt =====
-- internal/teams/auth/msal.go: the tokens of the MSAL library in a browser's local storage. The
-- storage lists its entries in the order in which Go visits the map.
pub mod Latest
use matrix_teams.Prelude.{
  ℕ, Bool, true, false, not, ◌&&◌, ◌||◌, ◌⊎◌, inl, inr, Option, none, some, List, [], ◌∷◌, ◌++◌,
  if◌then◌else◌, is_nil, is_some, length, drop, ◌==◌, ℤ, pos, negsuc, ltb_ℤ, Text, codes, text_eq,
  trim_space, to_lower, contains, has_prefix, lookup,
}
use matrix_teams.Go.Strconv.{parse_int}
use matrix_teams.Auth.State.{AuthState, no_state, merge_auth_state}

abbrev pub Storage : Type 0
Storage = List (Text × Text)

pub record MsalTokenKeys : Type 0 where
  pub refresh_token : List Text
  pub id_token : List Text
  pub access_token : List Text

pub record MsalTokenEntry : Type 0 where
  pub secret : Text
  pub expires_on : Text
  pub target : Text

pub record MsalCacheEncryptionKey : Type 0 where
  pub id : Text
  pub key : List ℕ

pub record MsalEncryptedEnvelope : Type 0 where
  pub id : Text
  pub nonce : Text
  pub ciphertext : Text

-- What the code reads of other packages: the decoders of JSON, the decryption of an entry (base64, the
-- derivation of the key and AES-GCM) from the key, the nonce, the data and the context, base64, and
-- time.Parse of an RFC 3339 time in seconds.
pub record Decoders : Type 0 where
  pub token_keys : Text → Option MsalTokenKeys
  pub token_entry : Text → Option MsalTokenEntry
  pub envelope : Text → Option MsalEncryptedEnvelope
  pub decrypt : List ℕ → Text → Text → Text → Option Text
  pub cookie : Text → Option (Text × Text)
  pub base64 : Text → Option (List ℕ)
  pub rfc3339 : Text → Option ℤ

pub data MsalError : Type 0 where
  not_found missing_cookie other_session decryption_failed undecodable : MsalError
  keys_not_found no_refresh_token_keys refresh_token_secret_missing : MsalError

module _ (dc : Decoders) where
  expires_at : Text → Option ℤ → Option ℤ
  expires_at value (some unix) = some unix
  expires_at value none = dc.rfc3339 value

  -- parseMSALExpires
  unfoldable pub parse_msal_expires : Text → Option ℤ
  unfolding expires_at
  parse_msal_expires value = if is_nil value then none else expires_at value (parse_int value)

  opened : Option Text → MsalError ⊎ Text
  opened none = inl decryption_failed
  opened (some plain) = inr plain

  -- The part of decryptMSALEntryValue behind the test on the envelope.
  decrypt_with :
      Option MsalCacheEncryptionKey → Text → Text → MsalEncryptedEnvelope → MsalError ⊎ Text
  unfolding opened
  decrypt_with none storage_key client_id e = inl missing_cookie
  decrypt_with (some k) storage_key client_id e =
      let context =
        if not (is_nil client_id) && contains storage_key client_id then client_id else [] in
      if is_nil k.key
      then inl missing_cookie
      else if not (is_nil e.id) && not (is_nil k.id) && not (text_eq e.id k.id)
      then inl other_session
      else opened (dc.decrypt k.key e.nonce e.ciphertext context)

  of_envelope :
      Option MsalCacheEncryptionKey
      → Text
      → Text
      → Text
      → Option MsalEncryptedEnvelope
      → MsalError ⊎ Text
  unfolding decrypt_with
  of_envelope cache_key storage_key client_id raw none = inr raw
  of_envelope cache_key storage_key client_id raw (some e) =
      if is_nil e.ciphertext || is_nil e.nonce
      then inr raw
      else decrypt_with cache_key storage_key client_id e

  -- decryptMSALEntryValue
  unfoldable pub decrypt_msal_entry_value :
      Option MsalCacheEncryptionKey → Text → Text → Text → MsalError ⊎ Text
  unfolding of_envelope
  decrypt_msal_entry_value cache_key storage_key client_id raw =
      of_envelope cache_key storage_key client_id raw (dc.envelope raw)

  entry_of : Option MsalTokenEntry → MsalError ⊎ MsalTokenEntry
  entry_of none = inl undecodable
  entry_of (some e) = inr e

  decoded_entry : MsalError ⊎ Text → MsalError ⊎ MsalTokenEntry
  unfolding entry_of
  decoded_entry (inl err) = inl err
  decoded_entry (inr plain) = entry_of (dc.token_entry plain)

  stored_entry :
      Text → Text → Option MsalCacheEncryptionKey → Option Text → MsalError ⊎ MsalTokenEntry
  unfolding decoded_entry
  stored_entry storage_key client_id cache_key none = inl not_found
  stored_entry storage_key client_id cache_key (some raw) =
      decoded_entry (decrypt_msal_entry_value cache_key storage_key client_id raw)

  -- readMSALEntry
  unfoldable pub read_msal_entry :
      Storage → Text → Text → Option MsalCacheEncryptionKey → MsalError ⊎ MsalTokenEntry
  unfolding stored_entry
  read_msal_entry storage storage_key client_id cache_key =
      stored_entry storage_key client_id cache_key (lookup storage storage_key)

  or_zero : Option ℤ → ℤ
  or_zero none = pos 0
  or_zero (some n) = n

  -- The token and the expiry of an entry that is usable for a target.
  usable : (Text → Bool) → MsalError ⊎ MsalTokenEntry → Option (Text × ℤ)
  unfolding or_zero
  usable matches (inl err) = none
  usable matches (inr e) =
      if is_nil e.secret || not (matches e.target)
      then none
      else some (e.secret, or_zero (parse_msal_expires e.expires_on))

  pub better : Text × ℤ → Option (Text × ℤ) → Text × ℤ
  better best none = best
  better (token, expiry) (some (token', expiry')) =
      if is_nil token || ltb_ℤ expiry expiry' then (token', expiry') else (token, expiry)

  pub select_from : (Text → Option (Text × ℤ)) → Text × ℤ → List Text → Text × ℤ
  unfolding better
  select_from candidate best [] = best
  select_from candidate best (key ∷ keys) = select_from candidate (better best (candidate key)) keys

  pub candidate :
      (Text → Bool) → Storage → Text → Option MsalCacheEncryptionKey → Text → Option (Text × ℤ)
  unfolding usable
  candidate matches storage client_id cache_key key =
      usable matches (read_msal_entry storage key client_id cache_key)

  select_token :
      (Text → Bool) → Storage → List Text → Text → Option MsalCacheEncryptionKey → Text × ℤ
  unfolding select_from candidate
  select_token matches storage keys client_id cache_key =
      select_from (candidate matches storage client_id cache_key) ([], pos 0) keys

  -- matchesMBITarget and matchesGraphTarget
  unfoldable pub matches_mbi_target : Text → Bool
  matches_mbi_target target =
      not (is_nil target)
      && contains (to_lower target) (codes "service::api.fl.spaces.skype.com::mbi_ssl")

  pub matches_graph_target : Text → Bool
  matches_graph_target target =
      not (is_nil target) && contains (to_lower target) (codes "graph.microsoft.com")

  -- selectMBIAccessToken and selectGraphAccessToken: an empty token where there is none.
  unfoldable pub select_mbi_access_token :
      Storage → List Text → Text → Option MsalCacheEncryptionKey → Text × ℤ
  unfolding select_token
  select_mbi_access_token = select_token matches_mbi_target

  pub select_graph_access_token :
      Storage → List Text → Text → Option MsalCacheEncryptionKey → Text × ℤ
  unfolding select_token
  select_graph_access_token = select_token matches_graph_target
