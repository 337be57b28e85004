-- ===== src/Lib.antt =====
-- Verification library of the Teams bridge: mautrix-teams, a Matrix bridge for Microsoft Teams.
--
-- The bridge keeps one client per login. A background loop polls the threads of the login, turns new
-- messages into events for the bridge framework, watches the reactions of the messages it has seen,
-- and polls how far the other side has read. A delay per thread grows with failures and idle polls.
-- What a Matrix user sends goes to Teams with an identifier by which the poll recognises the echo;
-- files go to a drive, large ones in chunks. A login is made by a device code; its tokens are renewed
-- before they expire and kept in the database. Received HTML is reduced to what Matrix may show, and
-- files are uploaded again or linked.
--
-- The parts, their files here, and the code they model:
--
--   Prelude          shared types, text, lists, integers of 64 bits, association lists, powers of two
--   Go               the functions of packages strconv, html and path/filepath that the code calls,
--                    sort.Slice as an interface, and instants of package time
--   Client.Errors    the errors of internal/teams/client/executor.go and messages.go, and errors.As
--   Client.Responses   the classifiers of responses and parseRetryAfter of
--                      internal/teams/client/messages.go
--   Client.Executor    the retries of internal/teams/client/executor.go
--   Client.MessageIds  GenerateClientMessageID of internal/teams/client/messages.go
--   Client.Access      the fields of Client in internal/teams/client/conversations.go
--   Client.Listing     ListMessages and fetchJSON of internal/teams/client/messages.go
--   Client.Content     formatHTMLContent and formatGIFContent of internal/teams/client/messages.go
--   Client.Sending     the requests of internal/teams/client/messages.go, reactions.go, receipts.go
--                      and typing.go that change something
--   Model.Message    the records of internal/teams/model/message.go and gif.go, NormalizeTeamsUserID
--   Model.Extract    the extractors of internal/teams/model/message.go
--   Model.Markup     the renderers of internal/teams/model/message_html.go and gif.go over a tree
--   Model.Body       NormalizeMessageBody of message_html.go, ExtractContent of message.go and
--                    ParseGIFsFromHTML of gif.go (internal/teams/model)
--   Model.Attachments    internal/teams/model/attachment.go
--   Model.Sequence   CompareSequenceID of internal/teams/model/message.go
--   Model.Conversation   internal/teams/model/conversation.go
--   Model.Horizon    internal/teams/model/consumption_horizon.go and ConsumptionHorizonNow of
--                    internal/teams/client/receipts.go
--   Graph.Item       parseUploadedDriveItem of internal/teams/graph/upload.go
--   Graph.Chunks     internal/teams/graph/chunked_upload.go
--   Graph.Requests   internal/teams/graph/upload.go, upload_session.go, create_link.go, get_drive_item.go
--                    and download_drive_item_content.go
--   Auth             internal/teams/auth/msal.go and teams_cache.go, AuthState of state.go
--   Auth.DeviceCode  internal/teams/auth/device_code.go
--   Auth.Tokens      internal/teams/auth/token.go and skype_token.go, Client of client.go
--   Auth.Cookies     internal/teams/auth/cookies.go
--   Bridge           internal/bridge/matrix_file_handler.go and send_attachment.go, and
--                    internal/teams/attachments/files_builder.go
--   Connector.Backoff       pkg/connector/poll_backoff.go
--   Connector.Tracker       the maps of TeamsClient: recordSelfMessage and consumeSelfMessage of
--                           client.go, markUnread and shouldSendReceipt of handlematrix.go,
--                           shouldPollReceipts and markReactionSeen of handleteams.go (pkg/connector)
--   Connector.Ids           pkg/connector/id.go and the identifiers of a reaction's target
--   Connector.Reactions     pkg/connector/reactions.go
--   Connector.Events        the events handed to the framework, and the state of a poll
--   Connector.ReactionSync  queueReactionSyncForMessage and its helpers in handleteams.go
--   Connector.ReadHorizons  pollConsumptionHorizons in handleteams.go and UpsertLastRead of
--                           pkg/teamsdb/consumption_horizon.go
--   Connector.Poll          pollThread of handleteams.go and UpdateCursor of pkg/teamsdb/thread_state.go
--   Connector.Discovery     refreshThreads of handleteams.go and Upsert of pkg/teamsdb/thread_state.go
--   Connector.Convert       pkg/connector/convert.go
--   Connector.Gif           pkg/connector/gif.go
--   Connector.Outbound      the handlers of pkg/connector/handlematrix.go and the sending of a file in
--                           send_attachment.go
--   Connector.Login         ensureValidSkypeToken of handleteams.go, graph_token.go, oauth_refresh.go,
--                           token_refresh.go, Connect, IsLoggedIn and LogoutRemote of client.go and
--                           device_code_login.go (pkg/connector), and pkg/teamsid/dbmeta.go
--   Connector.SyncLoop      startSyncLoop and stopSyncLoop of handleteams.go, with their goroutine
--   Connector.Schedule      the loop of pollDueThreads of handleteams.go, on any poll of a thread and
--                           with any time that the polls take
--
-- A function of the code has its name here in snake_case. A method that changes its receiver returns
-- the new value; a call that reaches the network takes the answer as an argument, and a loop that talks
-- to a server takes the server as a function on a state. A text is the list of its code points, and the
-- content of a file the list of its bytes. An int or a time.Duration is an integer with the
-- wrap-around of 64 bits. A time.Time is its distance in nanoseconds from the zero time or, in a
-- message, a cookie and a token, from the Unix epoch; what the source makes with time.UnixMilli is the
-- milliseconds that it is made of.
--
-- A map is an association list in which an insertion replaces; a nil map is the empty one. The order
-- in which Go visits a map is a parameter.
--
-- Bounds and fuel. The loop of a chunked upload has no bound in the code, so it runs on fuel; against
-- a session that keeps what it is sent, one unit per chunk is enough, and a session that does not can
-- keep it going forever. The executor's loop runs on fuel too, and one turn more than the retries
-- allowed is enough. The poll of a device code has no bound either: the user may never approve; one
-- unit of fuel more than the answers that ask to go on is enough. Stripping the prefixes of an
-- identifier takes at most as many rounds as it is long. The other loops are structural on the list
-- that they visit.
--
-- Not modelled. The case mapping of EqualFold and ToLower beyond ASCII, and text that is not UTF-8.
-- The decoding of JSON: a model starts from the decoded value, or from the fact that it does not
-- decode. `variationselector.FullyQualify` is a parameter. Log lines and the last-seen time of a
-- profile are left out, since nothing that is modelled reads them. The save of a login may fail, and so
-- may the queries and the update of a poll of read positions, whose error is discarded; other
-- failures of the database are left out. The clock that the echo test reads is a field of the environment. A configured
-- chunk size below zero is 0, which the code treats the same way. The body snippets of errors are left
-- out. The parser of HTML (golang.org/x/net/html), url.Parse, url.PathEscape, html.UnescapeString,
-- http.DetectContentType, mime.TypeByExtension, time.Parse and strconv.ParseFloat are parameters, as
-- are downloads from Matrix, HTTP behind the executor, the jar of net/http/cookiejar, files, and, in
-- the extraction of tokens, the decoding of JSON and base64 and the decryption. The bounds of int64 on
-- the seconds of an instant are left out. The page of the browser login (internal/teams/auth/flow.go),
-- PKCE, the probe, the listing of conversations, the queries of profiles, and the registration with
-- the framework are glue around HTTP, random numbers and SQL. A poll, a discovery and a handler take
-- the outcome of the token refresh as given.
pub mod Prelude
pub mod Go
pub mod Model
pub mod Client
pub mod Graph
pub mod Auth
pub mod Bridge
pub mod Connector
