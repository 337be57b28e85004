-- ===== src/Client/Listing.antt =====
-- `ListMessages` and `fetchJSON` of internal/teams/client/messages.go: a page of messages becomes a
-- list without repeated identifiers, sorted by sequence. The page is decoded JSON; sort.Slice and
-- url.PathEscape are parameters.
pub mod Page
mod Examples
use matrix_teams.Prelude.{
  ℕ, Ordering, Bool, true, false, not, ◌&&◌, ◌||◌, ◌⊎◌, inl, inr, Option, none, some, List, [], ◌∷◌,
  ◌++◌, ltb, leb, ◌==◌, if◌then◌else◌, is_nil, ℤ, pos, Text, codes, trim_space, one_of,
}
use matrix_teams.Go.Sort.{Sorter}
use matrix_teams.Model.Sequence.{compare_sequence_id}
use matrix_teams.Model.Message.{RemoteMessage, normalize_teams_user_id}
use matrix_teams.Model.Body.{Web, MessageContent, extract_content}
use matrix_teams.Model.Attachments.{extract_files_property}
use matrix_teams.Model.Extract.{Emotion, extract_sender_id, extract_reactions, parse_timestamp}
use matrix_teams.Client.Access.{Access, base_url, default_messages_url}
use matrix_teams.Client.Errors.{
  TeamsError, RetryableError, MessagesError, retryable, messages, other,
}
use matrix_teams.Client.Responses.{Response, parse_retry_after}

-- A sequence identifier in JSON: absent, a string, a number with its digits, or something else.
pub data RawSequence : Type 0 where
  absent : RawSequence
  string : Text → RawSequence
  number : Text → RawSequence
  invalid : RawSequence

-- remoteMessage: `content` and `from` are the texts that the extractors take, `files` the raw field
-- with the string that it decodes to, `emotions` those of the properties.
pub record RawMessage : Type 0 where
  pub id : Text
  pub client_message_id : Text
  pub sequence_id : RawSequence
  pub original_arrival_time : Text
  pub sender : Option Text
  pub im_display_name : Text
  pub from_display_name_in_token : Text
  pub content : Option Text
  pub files : Text
  pub files_string : Option Text
  pub emotions : List Emotion

-- normalizeSequenceID: `none` is its error.
pub normalize_sequence_id : RawSequence → Option Text
normalize_sequence_id absent = some []
normalize_sequence_id (string s) = some s
normalize_sequence_id (number digits) = some digits
normalize_sequence_id invalid = none

-- What the code reads of other packages: the HTML of a body, times and floating-point numbers, and
-- the escape of a path.
pub record Packages : Type 1 where
  pub web : Web
  pub rfc3339_nano : Text → Option ℤ
  pub rfc3339 : Text → Option ℤ
  pub parse_float : Text → Option ℤ
  pub path_escape : Text → Text
  pub sorter : Sorter RemoteMessage

-- The test by which the list is sorted.
pub earlier : RemoteMessage → RemoteMessage → Bool
earlier a b = elim (compare_sequence_id a.sequence_id b.sequence_id) [
  | Ordering.lt ↦ true
  | _ ↦ false
]

module _ (pk : Packages) where
  pub message_of : RawMessage → Text → RemoteMessage
  message_of msg sequence_id =
      let content : MessageContent = extract_content pk.web msg.content in
      record {
        message_id = msg.id;
        client_message_id = msg.client_message_id;
        sequence_id = sequence_id;
        sender_id = normalize_teams_user_id (extract_sender_id msg.sender);
        sender_name = [];
        im_display_name = msg.im_display_name;
        token_display_name = msg.from_display_name_in_token;
        timestamp = parse_timestamp pk.rfc3339_nano pk.rfc3339 msg.original_arrival_time;
        body = content.body;
        formatted_body = content.formatted_body;
        gifs = content.gifs;
        properties_files = extract_files_property msg.files msg.files_string;
        reactions = extract_reactions pk.parse_float msg.emotions;
      }

  appended : RawMessage → Option Text → Option (List RemoteMessage) → Option (List RemoteMessage)
  unfolding message_of
  appended msg none rest = none
  appended msg (some sequence_id) none = none
  appended msg (some sequence_id) (some rest) = some (message_of msg sequence_id ∷ rest)

  -- The loop over the page, with the identifiers seen so far.
  pub collect : List Text → List RawMessage → Option (List RemoteMessage)
  unfolding appended
  collect seen [] = some []
  collect seen (msg ∷ msgs) =
      let id = trim_space msg.id in
      let again = not (is_nil id) && one_of id seen in
      let rest = collect (if is_nil id || again then seen else id ∷ seen) msgs in
      if again then rest else appended msg (normalize_sequence_id msg.sequence_id) rest

  pub sorted : Option (List RemoteMessage) → Option (List RemoteMessage)
  sorted none = none
  sorted (some result) = some (pk.sorter.sort earlier result)

  -- What ListMessages makes of a page: `none` is its error.
  pub list_page : List RawMessage → Option (List RemoteMessage)
  unfolding collect sorted
  list_page page = sorted (collect [] page)

-- The classification of fetchJSON.
pub classify_fetch : (Text → Option ℤ) → Response → Option TeamsError
classify_fetch until r =
    if leb 200 r.status && ltb r.status 300
    then none
    else if r.status == 429
    then some (
        retryable (record {
          status = r.status;
          retry_after = parse_retry_after until r.retry_after_header;
        }))
    else if leb 500 r.status
    then some (retryable (record { status = r.status; retry_after = pos 0 }))
    else some (messages (record { status = r.status }))

pub data ListError : Type 0 where
  missing_http_client missing_token missing_conversation_id : ListError
  request_failed : ListError
  refused : TeamsError → ListError
  undecodable : ListError
  invalid_sequence_id : ListError

module _ (pk : Packages) (until : Text → Option ℤ)
    -- the answer to a request, with the body decoded; none where it fails
    (http : Text → Option (Response × Option (List RawMessage))) where
  pub messages_endpoint : Access → Text → Text
  unfolding base_url
  messages_endpoint c conversation_id =
      base_url c.messages_url default_messages_url
      ++ codes "/"
      ++ pk.path_escape conversation_id
      ++ codes "/messages"

  list_decoded : Option (List RawMessage) → ListError ⊎ List RemoteMessage
  list_decoded none = inl undecodable
  list_decoded (some page) = elim (list_page pk page) [
    | none ↦ inl invalid_sequence_id
    | some result ↦ inr result
  ]

  on_fetch : Option TeamsError → Option (List RawMessage) → ListError ⊎ List RemoteMessage
  unfolding list_decoded
  on_fetch none body = list_decoded body
  on_fetch (some err) body = inl (refused err)

  fetch_json : Option (Response × Option (List RawMessage)) → ListError ⊎ List RemoteMessage
  unfolding on_fetch
  fetch_json none = inl request_failed
  fetch_json (some (resp, body)) = on_fetch (classify_fetch until resp) body

  -- ListMessages; the parameter sinceSequence is not read.
  pub list_messages : Access → Text → Text → ListError ⊎ List RemoteMessage
  unfolding messages_endpoint fetch_json
  list_messages c conversation_id since_sequence =
      if not c.has_http
      then inl missing_http_client
      else if is_nil c.token
      then inl missing_token
      else if is_nil conversation_id
      then inl missing_conversation_id
      else fetch_json (http (messages_endpoint c conversation_id))
