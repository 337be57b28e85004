-- ===== src/Connector/Login/Device/Complete.antt =====
-- What a device-code login (pkg/connector/device_code_login.go) ends with.
use matrix_teams.Prelude.{
  ℕ, ◌≡◌, refl, subst, Bool, true, false, ◌⊎◌, inl, inr, Option, none, some, is_nil, Text,
  trim_space, IsTrimmed, trim_space-IsTrimmed, Bool-cases,
}
use matrix_teams.Auth.State.{AuthState}
use matrix_teams.Auth.Tokens.{AuthClient, TokenError, SkypeToken}
use matrix_teams.Auth.Tokens.Granted.{HasToken, acquire_skype_token-HasToken}
use matrix_teams.Auth.DeviceCode.{DeviceCodeClient, DeviceCodeError, Web, teams_personal_client_id}
use matrix_teams.Connector.Login.{UserLoginMetadata, LoginError, LoginWeb, rotated}
use matrix_teams.Connector.Login.Device.{
  DeviceLoginError, DeviceCodeLogin, with_skype, on_refreshed, personal_client,
  acquire_personal_teams_skype_token, personal_metadata, add_graph, on_new_login, register,
  on_personal, on_polled, wait_with, wait,
}

-- Metadata with which the bridge can connect and renew the tokens of a personal account.
pub record IsComplete (m : UserLoginMetadata) : Type 0 where
  pub renewable : is_nil m.refresh_token ≡ false
  pub trimmed : IsTrimmed m.refresh_token
  pub has_token : is_nil m.skype_token ≡ false
  pub has_user : is_nil m.teams_user_id ≡ false
  pub is_personal : m.oauth_client_id ≡ teams_personal_client_id

module _ {S B : Type 0} (device : Web S B) (web : LoginWeb S)
    (new_login : Text → UserLoginMetadata → S → Bool × S) where
  abbrev Completes : Option (DeviceLoginError ⊎ UserLoginMetadata) → Type 0
  Completes none = Unit
  Completes (some (inl err)) = Unit
  Completes (some (inr m)) = IsComplete m

  abbrev HasSkype : (DeviceLoginError ⊎ (AuthState × SkypeToken)) × S → Type 0
  HasSkype (inl err, s) = Unit
  HasSkype (inr (state, t), s) = is_nil t.token ≡ false

  with_skype-HasSkype :
      (state : AuthState) (r : (TokenError ⊎ SkypeToken) × S)
      → HasToken web.tokens r
      → HasSkype (with_skype device web new_login state r)
  unfolding with_skype
  with_skype-HasSkype state (inl err, s) h = tt
  with_skype-HasSkype state (inr t, s) h = h

  on_refreshed-HasSkype :
      (c : AuthClient) (r : (TokenError ⊎ AuthState) × S)
      → HasSkype (on_refreshed device web new_login c r)
  unfolding on_refreshed
  on_refreshed-HasSkype c (inl err, s) = tt
  on_refreshed-HasSkype c (inr state, s) =
      with_skype-HasSkype state _ (acquire_skype_token-HasToken web.tokens c state.access_token s)

  rotated-Fits :
      (old new : Text)
      → is_nil old ≡ false
      → IsTrimmed old
      → (is_nil (rotated web old new) ≡ false) × IsTrimmed (rotated web old new)
  rotated-Fits old new p t = elim (Bool-cases (is_nil (trim_space new))) [
    | inl e ↦ rw e (p, t)
    | inr e ↦ rw e (e, trim_space-IsTrimmed new)
  ]

  add_graph-IsComplete :
      (m : UserLoginMetadata) (graph : LoginError ⊎ AuthState)
      → IsComplete m
      → IsComplete (add_graph device web new_login m graph)
  unfolding add_graph
  add_graph-IsComplete m (inl err) v = v
  add_graph-IsComplete m (inr graph) v =
      let fits = rotated-Fits m.refresh_token graph.refresh_token v.renewable v.trimmed in
      record {
        renewable = fits.0;
        trimmed = fits.1;
        has_token = v.has_token;
        has_user = v.has_user;
        is_personal = v.is_personal;
      }

  on_new_login-Completes :
      (m : UserLoginMetadata) (r : Bool × S)
      → IsComplete m
      → Completes (on_new_login device web new_login m r).0
  unfolding on_new_login
  on_new_login-Completes m (true, s) v = v
  on_new_login-Completes m (false, s) v = tt

  register-Completes :
      (m : UserLoginMetadata) (r : (LoginError ⊎ AuthState) × S)
      → IsComplete m
      → Completes (register device web new_login m r).0
  unfolding register
  register-Completes m (graph, s) v = on_new_login-Completes _ _ (add_graph-IsComplete m graph v)

  on_personal-Completes :
      (state : AuthState) (r : (DeviceLoginError ⊎ (AuthState × SkypeToken)) × S)
      → is_nil (trim_space state.refresh_token) ≡ false
      → HasSkype r
      → Completes (on_personal device web new_login state r).0
  unfolding on_personal
  on_personal-Completes state (inl err, s) p h = tt
  on_personal-Completes state (inr (personal, t), s) p h =
      let m = personal_metadata device web new_login state personal t in
      elim (Bool-cases (is_nil m.teams_user_id)) [
        | inl e ↦ rw e tt
        | inr e ↦ rw e (
            register-Completes m _ (
              unfold personal_metadata in
              let fits =
                rotated-Fits (trim_space state.refresh_token) personal.refresh_token p
                  (trim_space-IsTrimmed state.refresh_token) in
              record {
                renewable = fits.0;
                trimmed = fits.1;
                has_token = h;
                has_user = e;
                is_personal = refl;
              }))
      ]

  on_polled-Completes :
      (r : Option (DeviceCodeError ⊎ AuthState) × S)
      → Completes (on_polled device web new_login r).0
  unfolding on_polled acquire_personal_teams_skype_token
  on_polled-Completes (none, s) = tt
  on_polled-Completes (some (inl err), s) = tt
  on_polled-Completes (some (inr state), s) =
      elim (Bool-cases (is_nil (trim_space state.refresh_token))) [
        | inl e ↦ rw e tt
        | inr e ↦ rw e (on_personal-Completes state _ e (on_refreshed-HasSkype personal_client _))
      ]

  wait_with-Completes :
      (fuel : ℕ) (l : DeviceCodeLogin) (c : Option DeviceCodeClient) (s : S)
      → Completes (wait_with device web new_login fuel l c s).0
  unfolding wait_with
  wait_with-Completes fuel l none s = tt
  wait_with-Completes fuel l (some c) s = elim (Bool-cases (is_nil l.device_code)) [
    | inl e ↦ rw e tt
    | inr e ↦
        rw e
          (elim (Bool-cases l.canceled) [ inl f ↦ rw f tt | inr f ↦ rw f (on_polled-Completes _) ])
  ]

-- Whatever the endpoints answer, a device-code login that succeeds has the tokens that the bridge
-- needs to connect and to renew them: a skype token, a user, a trimmed refresh token, and the client identifier that renews it.
pub wait-IsComplete :
    {S B : Type 0} (device : Web S B) (web : LoginWeb S)
    (new_login : Text → UserLoginMetadata → S → Bool × S) (fuel : ℕ) (l : DeviceCodeLogin) (s : S)
    (m : UserLoginMetadata)
    → (wait device web new_login fuel l s).0 ≡ some (inr m)
    → IsComplete m
unfolding wait
wait-IsComplete device web new_login fuel l s m h =
    subst (Completes device web new_login) h
      (wait_with-Completes device web new_login fuel l l.client s)
