-- ===== src/Auth/Tokens.antt =====
-- The OAuth requests of internal/teams/auth: token.go, skype_token.go, and the fields of Client in
-- client.go.
pub mod Granted
mod Examples
use matrix_teams.Prelude.{
  ℕ, Bool, true, false, ◌&&◌, not, ◌⊎◌, inl, inr, Option, none, some, List, [], ◌∷◌, ◌++◌, ◌*◌, ltb,
  leb, ◌==◌, if◌then◌else◌, is_nil, ℤ, pos, negsuc, ltb_ℤ, ◌+ℤ◌, Text, codes, trim_space, to_lower,
  contains, has_suffix, has_prefix, join, words,
}
use matrix_teams.Go.Time.{second, seconds, of_unix, unix}
use matrix_teams.Auth.State.{AuthState, no_state}

abbrev pub mbi_access_token_marker : Text
mbi_access_token_marker = codes "service::api.fl.spaces.skype.com::mbi_ssl"

grants_graph : List Text → Bool
grants_graph [] = false
grants_graph (part ∷ parts) =
    let rest = grants_graph parts in
    if contains part mbi_access_token_marker
    then false
    else if contains part (codes "graph.microsoft.com")
    then true
    else if has_suffix part (codes "files.readwrite")
    then true
    else rest

-- shouldPersistGraphToken
unfoldable pub should_persist_graph_token : Text → Bool
unfolding grants_graph words to_lower contains has_suffix trim_space
should_persist_graph_token scope =
    let trimmed = trim_space scope in
    if is_nil trimmed then true else grants_graph (words (to_lower trimmed))

-- Client, less its HTTP client
pub record AuthClient : Type 0 where
  pub token_endpoint : Text
  pub skype_token_endpoint : Text
  pub client_id : Text
  pub redirect_uri : Text
  pub scopes : List Text

-- NewClient
abbrev pub new_client : AuthClient
new_client = record {
  token_endpoint = codes "https://login.microsoftonline.com/consumers/oauth2/v2.0/token";
  skype_token_endpoint = codes "https://teams.live.com/api/auth/v1.0/authz/consumer";
  client_id = codes "4b3e8f46-56d3-427f-b1e2-d239b2ea6bca";
  redirect_uri = codes "https://teams.live.com/v2";
  scopes =
      codes "openid"
      ∷ codes "profile"
      ∷ codes "offline_access"
      ∷ codes "https://graph.microsoft.com/Files.ReadWrite"
      ∷ [];
}

-- tokenResponse, and the fields of skypeTokenResponse that are read
pub record TokenResponse : Type 0 where
  pub access_token : Text
  pub refresh_token : Text
  pub expires_in : ℤ
  pub id_token : Text

pub record SkypeTokenResponse : Type 0 where
  pub skype_token : Text
  pub expires_in : ℤ
  pub skype_id : Text

-- A request that fails, or a status with the decoded body, where it decodes.
pub data Answer (P : Type 0) : Type 0 where
  broken : Answer P
  answered : ℕ → Option P → Answer P

pub data TokenError : Type 0 where
  missing_code missing_refresh_token request decode missing_access_token : TokenError
  missing_endpoint missing_token : TokenError
  non_2xx : ℕ → TokenError

-- The HTTP client: a POST of a form, with a header `Origin` that may be empty, to an address; a POST
-- with a bearer token; the clock; and url.Parse, as the scheme and the host.
pub record TokenWeb (S : Type 0) : Type 0 where
  pub post_form : Text → Text → List (Text × Text) → S → Answer TokenResponse × S
  pub post_bearer : Text → Text → S → Answer SkypeTokenResponse × S
  pub now : S → ℤ
  pub parse_url : Text → Option (Text × Text)

-- A skype token, when it expires, and whose it is.
pub record SkypeToken : Type 0 where
  pub token : Text
  pub expires_at : ℤ
  pub skype_id : Text

origin_of : Option (Text × Text) → Text
origin_of none = []
origin_of (some (scheme, host)) =
    if is_nil scheme then [] else if is_nil host then [] else scheme ++ codes "://" ++ host

-- strings.Join(c.Scopes, " ")
abbrev pub scope_of : List Text → Text
scope_of scopes = join (codes " ") scopes

module _ {S : Type 0} (web : TokenWeb S) where
  -- redirectOrigin
  redirect_origin : Text → Text
  unfolding origin_of
  redirect_origin uri = if is_nil (trim_space uri) then [] else origin_of (web.parse_url uri)

  -- the state of a response to a request for a scope
  state_of_response : Text → ℤ → TokenResponse → AuthState
  unfolding seconds unix
  state_of_response scope now p =
      let expires_at =
        if ltb_ℤ (pos 0) p.expires_in then unix (now +ℤ seconds p.expires_in) else pos 0 in
      record no_state {
        access_token = p.access_token;
        refresh_token = p.refresh_token;
        id_token = p.id_token;
        expires_at_unix = expires_at;
        graph_access_token = if should_persist_graph_token scope then p.access_token else [];
        graph_expires_at = if should_persist_graph_token scope then expires_at else pos 0;
      }

  on_payload : Text → Option TokenResponse → S → (TokenError ⊎ AuthState) × S
  unfolding state_of_response
  on_payload scope none s = (inl decode, s)
  on_payload scope (some p) s =
      if is_nil p.access_token
      then (inl missing_access_token, s)
      else (inr (state_of_response scope (web.now s) p), s)

  on_token_answer : Text → Answer TokenResponse × S → (TokenError ⊎ AuthState) × S
  unfolding on_payload
  on_token_answer scope (broken, s) = (inl request, s)
  on_token_answer scope (answered status payload, s) =
      if leb 200 status && ltb status 300
      then on_payload scope payload s
      else (inl (non_2xx status), s)

  -- tokenRequest; `scope` is the form's field, empty where it has none.
  token_request : AuthClient → Text → List (Text × Text) → S → (TokenError ⊎ AuthState) × S
  unfolding on_token_answer redirect_origin
  token_request c scope values s =
      on_token_answer scope
        (web.post_form c.token_endpoint (redirect_origin c.redirect_uri) values s)

  -- ExchangeCode
  pub exchange_code : AuthClient → Text → Text → S → (TokenError ⊎ AuthState) × S
  unfolding token_request
  exchange_code c code verifier s =
      if is_nil code
      then (inl missing_code, s)
      else token_request c []
          ((codes "client_id", c.client_id)
            ∷ (codes "redirect_uri", c.redirect_uri)
            ∷ (codes "grant_type", codes "authorization_code")
            ∷ (codes "code", code)
            ∷ (codes "code_verifier", verifier)
            ∷ [])
          s

  -- RefreshAccessToken
  unfoldable pub refresh_access_token : AuthClient → Text → S → (TokenError ⊎ AuthState) × S
  unfolding token_request
  refresh_access_token c refresh_token s =
      if is_nil refresh_token
      then (inl missing_refresh_token, s)
      else token_request c (scope_of c.scopes)
          ((codes "client_id", c.client_id)
            ∷ (codes "grant_type", codes "refresh_token")
            ∷ (codes "refresh_token", refresh_token)
            ∷ (if is_nil c.scopes then [] else (codes "scope", scope_of c.scopes) ∷ []))
          s

  skype_token_of : Option SkypeTokenResponse → S → (TokenError ⊎ SkypeToken) × S
  unfolding seconds unix
  skype_token_of none s = (inl decode, s)
  skype_token_of (some p) s = if is_nil p.skype_token then (inl missing_token, s) else (
    inr (record {
      token = p.skype_token;
      expires_at =
          if ltb_ℤ (pos 0) p.expires_in then unix (web.now s +ℤ seconds p.expires_in) else pos 0;
      skype_id = p.skype_id;
    }),
    s,
  )

  on_skype_answer : Answer SkypeTokenResponse × S → (TokenError ⊎ SkypeToken) × S
  unfolding skype_token_of
  on_skype_answer (broken, s) = (inl request, s)
  on_skype_answer (answered status payload, s) =
      if leb 200 status && ltb status 300
      then skype_token_of payload s
      else (inl (non_2xx status), s)

  -- AcquireSkypeToken
  unfoldable pub acquire_skype_token : AuthClient → Text → S → (TokenError ⊎ SkypeToken) × S
  unfolding on_skype_answer
  acquire_skype_token c access_token s =
      if is_nil c.skype_token_endpoint
      then (inl missing_endpoint, s)
      else if is_nil access_token
      then (inl missing_access_token, s)
      else on_skype_answer (web.post_bearer c.skype_token_endpoint access_token s)

abbrev pub is_unset : ℤ → Bool
is_unset (pos n) = n == 0
is_unset (negsuc n) = false

-- HasValidSkypeToken, and the same test in ensureValidSkypeToken and IsLoggedIn of the connector: the
-- token is there, and expires more than a minute from now.
unfoldable pub has_valid_token : Text → ℤ → ℤ → Bool
unfolding of_unix
has_valid_token token expires_at now =
    if is_nil token
    then false
    else if is_unset expires_at
    then false
    else ltb_ℤ (now +ℤ pos (60 * second)) (of_unix expires_at)
