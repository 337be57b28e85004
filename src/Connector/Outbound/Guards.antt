-- ===== src/Connector/Outbound/Guards.antt =====
-- The tests and the ends that the handlers of pkg/connector/handlematrix.go share.
use matrix_teams.Prelude.{◌⊎◌, inl, inr, Option, none, some, if◌then◌else◌}
use matrix_teams.Client.Access.{Access}
use matrix_teams.Client.Sending.{SendError}
use matrix_teams.Connector.Outbound.{Session, HandlerError, Services, lift, token, sending}

module _ {W E : Type 0} (sv : Services W E) where
  -- The two tests with which every handler begins.
  unfoldable pub with_token :
      {A : Type 0}
      → (Session W → (HandlerError E ⊎ A) × Session W)
      → Option E × Session W
      → (HandlerError E ⊎ A) × Session W
  with_token go (some err, s) = (inl (token err), s)
  with_token go (none, s) = go s

  unfoldable pub signed_in :
      {A : Type 0}
      → (Session W → (HandlerError E ⊎ A) × Session W)
      → Session W
      → (HandlerError E ⊎ A) × Session W
  unfolding with_token
  signed_in go s =
      if sv.is_logged_in s.world
      then with_token go (lift sv.ensure_valid_skype_token s)
      else (inl HandlerError.not_logged_in, s)

  unfoldable pub with_consumer :
      {A : Type 0}
      → (Access → Session W → (HandlerError E ⊎ A) × Session W)
      → Option Access
      → Session W
      → (HandlerError E ⊎ A) × Session W
  with_consumer go none s = (inl HandlerError.missing_consumer, s)
  with_consumer go (some consumer) s = go consumer s

  -- The end of a handler that makes one request.
  unfoldable pub requested :
      {A : Type 0} → A → Option (SendError E) × Session W → (HandlerError E ⊎ A) × Session W
  requested a (none, s) = (inr a, s)
  requested a (some err, s) = (inl (sending err), s)
