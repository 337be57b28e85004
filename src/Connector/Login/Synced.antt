-- ===== src/Connector/Login/Synced.antt =====
-- What the renewal of tokens keeps: ensureValidSkypeToken of pkg/connector/handleteams.go,
-- ensureValidGraphToken of graph_token.go, and Connect of client.go.
use matrix_teams.Prelude.{
  ◌≡◌, refl, sym, ap, subst, ◌∙◌, Bool, true, false, ◌||◌, ◌⊎◌, inl, inr, Option, none, some, List,
  [], ◌∷◌, is_nil, Text, trim_space, text_eq, text_eq_iff, IsTrimmed, trim_space-IsTrimmed,
  Bool-cases,
}
use matrix_teams.Auth.State.{AuthState}
use matrix_teams.Auth.Tokens.{AuthClient, TokenError, SkypeToken, has_valid_token, is_unset}
use matrix_teams.Connector.Login.{
  LoginError, LoginWeb, Login, save, rotated, saved_graph, on_renewed_graph, graph_token_valid,
  ensure_valid_graph_token, on_skype_token, on_access_token, ensure_valid_skype_token,
  set_logged_in, connect, send_state, connecting_state,
}

-- The database has what is in memory, and there is a refresh token to go on with.
pub record IsRenewable {S : Type 0} (l : Login S) : Type 0 where
  pub synced : l.stored ≡ l.meta
  pub trimmed : IsTrimmed l.meta.refresh_token
  pub present : is_nil l.meta.refresh_token ≡ false

module _ {S : Type 0} (web : LoginWeb S) (saves : (s : S) → web.can_save s ≡ true) where
  save_lem : (l : Login S) → save web l ≡ (true, record l { stored = l.meta })
  unfolding save
  save_lem l = rw (saves l.world) refl

  rotated-IsTrimmed : (old new : Text) → IsTrimmed old → IsTrimmed (rotated web old new)
  rotated-IsTrimmed old new h = elim (Bool-cases (is_nil (trim_space new))) [
    | inl e ↦ rw e h
    | inr e ↦ rw e (trim_space-IsTrimmed new)
  ]

  rotated_present : (old new : Text) → is_nil old ≡ false → is_nil (rotated web old new) ≡ false
  rotated_present old new h = elim (Bool-cases (is_nil (trim_space new))) [
    | inl e ↦ rw e h
    | inr e ↦ rw e e
  ]

  saved-IsRenewable :
      (l : Login S)
      → IsTrimmed l.meta.refresh_token
      → is_nil l.meta.refresh_token ≡ false
      → IsRenewable (save web l).1
  saved-IsRenewable l t p = rw (save_lem l) (record { synced = refl; trimmed = t; present = p })

  saved_graph-IsRenewable :
      (r : Bool × Login S) → IsRenewable r.1 → IsRenewable (saved_graph web r).1
  unfolding saved_graph
  saved_graph-IsRenewable (true, l) v = v
  saved_graph-IsRenewable (false, l) v = v

  on_renewed_graph-IsRenewable :
      (l : Login S) (r : (LoginError ⊎ AuthState) × S)
      → IsRenewable l
      → IsRenewable (on_renewed_graph web l r).1
  unfolding on_renewed_graph
  on_renewed_graph-IsRenewable l (inl err, s) v = record {
    synced = v.synced;
    trimmed = v.trimmed;
    present = v.present;
  }
  on_renewed_graph-IsRenewable l (inr refreshed, s) v =
      elim (Bool-cases
        (is_nil (trim_space refreshed.graph_access_token) || is_unset refreshed.graph_expires_at)) [
          | inl e ↦ rw e (record { synced = v.synced; trimmed = v.trimmed; present = v.present })
          | inr e ↦ rw e (
              saved_graph-IsRenewable _ (
                saved-IsRenewable _ (rotated-IsTrimmed _ refreshed.refresh_token v.trimmed)
                  (rotated_present _ refreshed.refresh_token v.present)))
        ]

  -- Without a rotation the metadata are as before.
  unrotated :
      (l : Login S) (s : S) (new : Text)
      → new ≡ l.meta.refresh_token
      → IsRenewable l
      → IsRenewable {S = S} (record l { world = s; meta = record l.meta { refresh_token = new } })
  unrotated l s new e v = record {
    synced = v.synced ∙ ap (λ (r : Text). record l.meta { refresh_token = r }) (sym e);
    trimmed = subst IsTrimmed (sym e) v.trimmed;
    present = ap (λ (r : Text). is_nil r) e ∙ v.present;
  }

  on_skype_token-IsRenewable :
      (old : Text) (state : AuthState) (l : Login S) (r : (TokenError ⊎ SkypeToken) × S)
      → old ≡ l.meta.refresh_token
      → IsRenewable l
      → IsRenewable
          (on_skype_token web old state
            (record l {
              meta = record l.meta {
                refresh_token = rotated web l.meta.refresh_token state.refresh_token;
              };
            })
            r).1
  unfolding on_skype_token
  on_skype_token-IsRenewable old state l (inl err, s) e v =
      elim (Bool-cases (is_nil (trim_space state.refresh_token))) [
        | inl blank ↦ rw blank (unrotated l s l.meta.refresh_token refl v)
        | inr filled ↦ rw filled (elim (Bool-cases (text_eq (trim_space state.refresh_token) old)) [
          | inl same ↦ rw same (unrotated l s _ ((text_eq_iff _ old).0 same ∙ e) v)
          | inr other ↦
              rw other (saved-IsRenewable _ (trim_space-IsTrimmed state.refresh_token) filled)
        ])
      ]
  on_skype_token-IsRenewable old state l (inr t, s) e v =
      saved-IsRenewable _ (rotated-IsTrimmed _ state.refresh_token v.trimmed)
        (rotated_present _ state.refresh_token v.present)

  on_access_token-IsRenewable :
      (client : AuthClient) (old : Text) (l : Login S) (r : (TokenError ⊎ AuthState) × S)
      → old ≡ l.meta.refresh_token
      → IsRenewable l
      → IsRenewable (on_access_token web client old l r).1
  unfolding on_access_token
  on_access_token-IsRenewable client old l (inl err, s) e v = record {
    synced = v.synced;
    trimmed = v.trimmed;
    present = v.present;
  }
  on_access_token-IsRenewable client old l (inr state, s) e v =
      on_skype_token-IsRenewable old state l _ e v

  ensure_valid_graph_token-IsRenewable :
      (l : Login S) → IsRenewable l → IsRenewable (ensure_valid_graph_token web l).1
  unfolding ensure_valid_graph_token
  ensure_valid_graph_token-IsRenewable l v =
      elim (Bool-cases (graph_token_valid l.meta (web.tokens.now l.world))) [
        | inl valid ↦ rw valid v
        | inr stale ↦ rw stale (rw (v.trimmed, v.present) (on_renewed_graph-IsRenewable l _ v))
      ]

  ensure_valid_skype_token-IsRenewable :
      (l : Login S) → IsRenewable l → IsRenewable (ensure_valid_skype_token web l).1
  unfolding ensure_valid_skype_token
  ensure_valid_skype_token-IsRenewable l v =
      elim (Bool-cases (
        has_valid_token l.meta.skype_token l.meta.skype_token_expires_at
          (web.tokens.now l.world))) [
            | inl valid ↦ rw valid v
            | inr stale ↦
                rw stale (rw (v.trimmed, v.present) (on_access_token-IsRenewable _ _ l _ refl v))
          ]

  set_logged_in-IsRenewable :
      (r : Option LoginError × Login S) → IsRenewable r.1 → IsRenewable (set_logged_in web r).1
  unfolding set_logged_in
  set_logged_in-IsRenewable (none, l) v = record {
    synced = v.synced;
    trimmed = v.trimmed;
    present = v.present;
  }
  set_logged_in-IsRenewable (some err, l) v = record {
    synced = v.synced;
    trimmed = v.trimmed;
    present = v.present;
  }

  connect-IsRenewable : (l : Login S) → IsRenewable l → IsRenewable (connect web l).1
  unfolding connect
  connect-IsRenewable l v = set_logged_in-IsRenewable _ (
      ensure_valid_skype_token-IsRenewable (send_state web connecting_state l) (
        unfold send_state in
        record { synced = v.synced; trimmed = v.trimmed; present = v.present }))

-- The operations that renew tokens.
pub data Renewal : Type 0 where
  connecting skype_token graph_token : Renewal

unfoldable pub renew : {S : Type 0} → LoginWeb S → Renewal → Login S → Login S
renew web connecting l = (connect web l).1
renew web skype_token l = (ensure_valid_skype_token web l).1
renew web graph_token l = (ensure_valid_graph_token web l).1

unfoldable pub run : {S : Type 0} → LoginWeb S → List Renewal → Login S → Login S
unfolding renew
run web [] l = l
run web (op ∷ ops) l = run web ops (renew web op l)

pub renew-IsRenewable :
    {S : Type 0} (web : LoginWeb S)
    → ((s : S) → web.can_save s ≡ true)
    → (op : Renewal) (l : Login S) → IsRenewable l
    → IsRenewable (renew web op l)
unfolding renew
renew-IsRenewable web saves connecting l v = connect-IsRenewable web saves l v
renew-IsRenewable web saves skype_token l v = ensure_valid_skype_token-IsRenewable web saves l v
renew-IsRenewable web saves graph_token l v = ensure_valid_graph_token-IsRenewable web saves l v
