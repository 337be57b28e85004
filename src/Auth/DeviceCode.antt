-- ===== src/Auth/DeviceCode.antt =====
-- internal/teams/auth/device_code.go: the request of a device code and the poll for its approval.
pub mod Approval
mod Examples
use matrix_teams.Prelude.{
  ℕ, zero, suc, Bool, true, false, ◌&&◌, ◌||◌, not, ◌⊎◌, inl, inr, Option, none, some, List, [],
  ◌∷◌, ◌++◌, ◌*◌, ltb, ◌==◌, if◌then◌else◌, leb, is_nil, ℤ, pos, ltb_ℤ, leb_ℤ, ◌+ℤ◌, add64, Text,
  codes, text_eq, one_of, trim_space,
}
use matrix_teams.Go.Strconv.{parse_int}
use matrix_teams.Go.Time.{second, seconds, unix}
use matrix_teams.Auth.State.{AuthState, no_state}

abbrev pub teams_personal_client_id : Text
teams_personal_client_id = codes "8ec6bc83-69c8-4392-8f08-b3c986009232"

abbrev teams_personal_resource : Text
teams_personal_resource = codes "https://api.spaces.skype.com"

abbrev default_device_code_tenant : Text
default_device_code_tenant = codes "common"

-- strings.Trim(s, `"`)
unquoted_left : Text → Text
unquoted_left [] = []
unquoted_left (c ∷ s) = let rest = unquoted_left s in if c == b'"' then rest else c ∷ s

unquoted_right : Text → Text
unquoted_right [] = []
unquoted_right (c ∷ s) =
    let rest = unquoted_right s in if is_nil rest && c == b'"' then [] else c ∷ rest

-- flexibleInt64.UnmarshalJSON on the field's JSON; an absent field stays 0.
pub flexible_int64 : Option Text → Option ℤ
unfolding unquoted_left unquoted_right
flexible_int64 none = some (pos 0)
flexible_int64 (some json) =
    let trimmed = unquoted_right (unquoted_left (trim_space json)) in
    if is_nil trimmed || text_eq trimmed (codes "null") then some (pos 0) else parse_int trimmed

-- The JSON objects of the two endpoints; an absent text is empty, a number is its JSON.
pub record CodePayload : Type 0 where
  pub user_code : Text
  pub device_code : Text
  pub verification_url : Text
  pub verification_uri : Text
  pub expires_in : Option Text
  pub interval : Option Text

pub record TokenPayload : Type 0 where
  pub access_token : Text
  pub refresh_token : Text
  pub id_token : Text
  pub expires_in : Option Text
  pub error : Text

pub record DeviceCodeResponse : Type 0 where
  pub user_code : Text
  pub device_code : Text
  pub verification_uri : Text
  pub expires_in : ℤ
  pub interval : ℤ

pub data DeviceCodeError : Type 0 where
  missing_device_code missing_required_fields decode canceled expired declined : DeviceCodeError
  request : DeviceCodeError
  non_2xx : ℕ → DeviceCodeError
  endpoint_error : Text → DeviceCodeError

-- DeviceCodeClient, less its HTTP client
pub record DeviceCodeClient : Type 0 where
  pub client_id : Text
  pub resource : Text
  pub tenant : Text
  pub device_code_endpoint : Text
  pub token_endpoint : Text

abbrev pub Form : Type 0
Form = List (Text × Text)

-- What a request brings back: no answer, or a status and a body.
pub data Posted (B : Type 0) : Type 0 where
  broken : Posted B
  posted : ℕ → B → Posted B

-- The HTTP client, which posts a form to an address; the decoders of JSON; a wait, which tells whether
-- the timer fired before the context was cancelled; and the clock.
pub record Web (S B : Type 0) : Type 0 where
  pub post_form : Text → Form → S → Posted B × S
  pub code_payload : B → Option CodePayload
  pub token_payload : B → Option TokenPayload
  pub wait : ℤ → S → Bool × S
  pub now : S → ℤ

abbrev or_default : Text → Text → Text
or_default value default = if is_nil (trim_space value) then default else trim_space value

abbrev tenant_url : DeviceCodeClient → Text → Text
tenant_url c path =
    codes "https://login.microsoftonline.com/"
    ++ or_default c.tenant default_device_code_tenant
    ++ path

-- Start on the decoded response
code_of : CodePayload → Option ℤ → Option ℤ → DeviceCodeError ⊎ DeviceCodeResponse
code_of p none interval = inl decode
code_of p (some expires_in) none = inl decode
code_of p (some expires_in) (some interval) =
    let uri = if is_nil p.verification_uri then p.verification_url else p.verification_uri in
    if is_nil p.device_code || is_nil p.user_code || is_nil uri
    then inl missing_required_fields
    else inr (record {
      user_code = p.user_code;
      device_code = p.device_code;
      verification_uri = uri;
      expires_in = expires_in;
      interval = if leb_ℤ interval (pos 0) then pos 5 else interval;
    })

decoded_code : Option CodePayload → DeviceCodeError ⊎ DeviceCodeResponse
unfolding code_of flexible_int64
decoded_code none = inl decode
decoded_code (some p) = code_of p (flexible_int64 p.expires_in) (flexible_int64 p.interval)

-- What a poll makes of a decoded answer: it ends, or it goes on with an interval.
pub data Verdict : Type 0 where
  ended : DeviceCodeError ⊎ AuthState → Verdict
  waits : ℤ → Verdict

pub granted : ℤ → TokenPayload → ℤ → AuthState
unfolding seconds unix
granted now p expires_in = record no_state {
  access_token = p.access_token;
  refresh_token = p.refresh_token;
  id_token = p.id_token;
  expires_at_unix = if ltb_ℤ (pos 0) expires_in then unix (now +ℤ seconds expires_in) else pos 0;
}

abbrev pub five_seconds : ℤ
five_seconds = pos (5 * second)

on_refusal : ℤ → Text → Verdict
on_refusal interval error =
    if text_eq error (codes "authorization_pending")
    then waits interval
    else if text_eq error (codes "slow_down")
    then waits (add64 interval five_seconds)
    else if one_of error (codes "expired_token" ∷ codes "code_expired" ∷ [])
    then ended (inl expired)
    else if one_of error (codes "authorization_declined" ∷ codes "access_denied" ∷ [])
    then ended (inl declined)
    else ended (inl (endpoint_error error))

verdict_of : ℤ → ℤ → TokenPayload → Option ℤ → Verdict
unfolding granted on_refusal
verdict_of now interval p none = ended (inl decode)
verdict_of now interval p (some expires_in) =
    if is_nil p.access_token
    then on_refusal interval p.error
    else ended (inr (granted now p expires_in))

-- One answer of the token endpoint, whatever its status.
verdict_on : ℤ → ℤ → Option TokenPayload → Verdict
unfolding verdict_of flexible_int64
verdict_on now interval none = ended (inl decode)
verdict_on now interval (some p) = verdict_of now interval p (flexible_int64 p.expires_in)

module _ {S B : Type 0} (web : Web S B) (c : DeviceCodeClient) where
  on_code : Posted B × S → (DeviceCodeError ⊎ DeviceCodeResponse) × S
  unfolding decoded_code
  on_code (broken, s) = (inl request, s)
  on_code (posted status body, s) =
      if leb 200 status && ltb status 300
      then (decoded_code (web.code_payload body), s)
      else (inl (non_2xx status), s)

  -- Start
  pub start : S → (DeviceCodeError ⊎ DeviceCodeResponse) × S
  unfolding on_code
  start s =
      let url =
        if is_nil c.device_code_endpoint
        then tenant_url c (codes "/oauth2/devicecode")
        else c.device_code_endpoint in
      let values : Form =
        (codes "client_id", or_default c.client_id teams_personal_client_id)
        ∷ (codes "resource", or_default c.resource teams_personal_resource)
        ∷ [] in
      on_code (web.post_form url values s)

  token_url : Text
  token_url =
      if is_nil c.token_endpoint then tenant_url c (codes "/oauth2/token") else c.token_endpoint

  pub poll_form : Text → Form
  poll_form device_code =
      (codes "client_id", or_default c.client_id teams_personal_client_id)
      ∷ (codes "grant_type", codes "urn:ietf:params:oauth:grant-type:device_code")
      ∷ (codes "code", device_code)
      ∷ []

  on_token_reply : ℤ → Posted B × S → Verdict × S
  unfolding verdict_on
  on_token_reply interval (broken, s) = (ended (inl request), s)
  on_token_reply interval (posted status body, s) =
      (verdict_on (web.now s) interval (web.token_payload body), s)

  after_wait : Text → ℤ → Bool × S → Verdict × S
  unfolding on_token_reply token_url poll_form
  after_wait device_code interval (false, s) = (ended (inl canceled), s)
  after_wait device_code interval (true, s) =
      on_token_reply interval (web.post_form token_url (poll_form device_code) s)

  -- One turn of the loop: the wait, the request, and the answer.
  unfoldable pub poll_turn : Text → ℤ → S → Verdict × S
  unfolding after_wait
  poll_turn device_code interval s = after_wait device_code interval (web.wait interval s)

  -- `none` is the end of the model's fuel.
  abbrev pub Polled : Type 0
  Polled = Option (DeviceCodeError ⊎ AuthState) × S

  abbrev after_turn : (ℤ → S → Polled) → Verdict × S → Polled
  after_turn again (ended result, s) = (some result, s)
  after_turn again (waits interval, s) = again interval s

  -- the loop of Poll
  pub poll_from : ℕ → Text → ℤ → S → Polled
  poll_from zero device_code interval s = (none, s)
  poll_from (suc fuel) device_code interval s =
      after_turn (poll_from fuel device_code) (poll_turn device_code interval s)

  -- Poll
  unfoldable pub poll : ℕ → Text → ℤ → S → Polled
  unfolding poll_from
  poll fuel device_code interval s =
      if is_nil (trim_space device_code)
      then (some (inl missing_device_code), s)
      else poll_from fuel device_code (if leb_ℤ interval (pos 0) then five_seconds else interval) s
