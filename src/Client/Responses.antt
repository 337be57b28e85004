-- ===== src/Client/Responses.antt =====
-- What the classifiers of internal/teams/client (messages.go, reactions.go, receipts.go, typing.go)
-- make of a response: they differ in the type of the last error only.
use matrix_teams.Prelude.{
  ℕ, ◌&&◌, Option, none, some, ltb, leb, ◌==◌, if◌then◌else◌, ℤ, pos, negsuc, ltb_ℤ, mul64, Text,
  is_nil,
}
use matrix_teams.Go.Strconv.{parse_int}
use matrix_teams.Client.Errors.{TeamsError, retryable, other}

-- A response, as far as the classifiers read it.
pub record Response : Type 0 where
  pub status : ℕ
  pub retry_after_header : Text

-- `until` is time.Until of what http.ParseTime reads, `none` where that fails.
parse_date : Option ℤ → ℤ
parse_date none = pos 0
parse_date (some d) = if ltb_ℤ (pos 0) d then d else pos 0

unfoldable pub parse_seconds : (Text → Option ℤ) → Text → Option ℤ → ℤ
unfolding parse_date
parse_seconds until value none = parse_date (until value)
parse_seconds until value (some (negsuc n)) = parse_date (until value)
parse_seconds until value (some (pos n)) = mul64 (pos n) (pos 1_000_000_000)

-- parseRetryAfter
unfoldable pub parse_retry_after : (Text → Option ℤ) → Text → ℤ
unfolding parse_seconds
parse_retry_after until value =
    if is_nil value then pos 0 else parse_seconds until value (parse_int value)

-- classifyTeamsSendResponse and its likes, on a response that is there; `other` stands for the error
-- of the operation.
unfoldable pub classify_response : (Text → Option ℤ) → Response → Option TeamsError
classify_response until r =
    if leb 200 r.status && ltb r.status 300
    then none
    else if r.status == 429
    then some (
        retryable (record {
          status = r.status;
          retry_after = parse_retry_after until r.retry_after_header;
        }))
    else if leb 500 r.status
    then some (retryable (record { status = r.status; retry_after = pos 0 }))
    else some other
