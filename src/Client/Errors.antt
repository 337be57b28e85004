-- ===== src/Client/Errors.antt =====
-- The error values that the Teams client returns (internal/teams/client/executor.go, messages.go),
-- as `errors.As` sees them: a chain of wrapped errors that ends in a value of some type.
use matrix_teams.Prelude.{ℕ, ℤ, Option, none, some}

-- RetryableError; its `Cause` is only read by `Error()`.
pub record RetryableError : Type 0 where
  pub status : ℕ
  pub retry_after : ℤ

-- MessagesError, less the body snippet, which is only logged.
pub record MessagesError : Type 0 where
  pub status : ℕ

-- `wrapped` is an error with an `Unwrap` method; `other` has none of the two types in its chain.
pub data TeamsError : Type 0 where
  retryable : RetryableError → TeamsError
  messages : MessagesError → TeamsError
  wrapped : TeamsError → TeamsError
  other : TeamsError

-- errors.As(err, &retryable)
unfoldable pub as_retryable : TeamsError → Option RetryableError
as_retryable (retryable r) = some r
as_retryable (messages m) = none
as_retryable (wrapped e) = as_retryable e
as_retryable other = none

-- errors.As(err, &msgErr)
unfoldable pub as_messages : TeamsError → Option MessagesError
as_messages (retryable r) = none
as_messages (messages m) = some m
as_messages (wrapped e) = as_messages e
as_messages other = none
