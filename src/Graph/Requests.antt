-- ===== src/Graph/Requests.antt =====
-- The single requests of internal/teams/graph (upload.go, upload_session.go, create_link.go,
-- get_drive_item.go, download_drive_item_content.go), and the upload of a file in one piece or in
-- chunks.
mod Types
pub mod Drive
mod Examples
pub use Types.*
use matrix_teams.Prelude.{
  ℕ, Bool, true, false, not, ◌&&◌, Option, none, some, List, [], ◌∷◌, ◌++◌, ◌*◌, ltb, ◌==◌,
  if◌then◌else◌, length, is_nil, ℤ, pos, pos_part, leb_ℤ, Text, codes, trim_space,
}
use matrix_teams.Go.Path.{trim_slashes}
use matrix_teams.Bridge.Descriptor.{CreatedShareLink}
use matrix_teams.Graph.Item.{
  GraphError, Result, ok, err, UploadedDriveItem, ItemPayload, parse_uploaded_drive_item,
  item_or_fetch, missing_http_client, missing_access_token, empty_filename, empty_content,
  content_too_large, request_failed, decode_failed, read_failed, missing_upload_session_url,
  empty_list_item_unique_id, empty_drive_item_id, missing_create_link_share_id,
  missing_create_link_share_url,
}
use matrix_teams.Graph.Chunks.{Put, Reply, Upload, returned, upload_file_in_chunks}

module _ {S : Type 0} (g : Graph S) (c : GraphClient) where
  bearer : Text
  bearer = codes "Bearer " ++ trim_space c.access_token

  named_url : Text → Text → Text
  unfolding trim_slashes
  named_url filename suffix =
      let base = trim_space c.upload_base_url in
      trim_slashes (
        if is_nil base
        then codes "https://graph.microsoft.com/v1.0/me/drive/root:/Microsoft Teams Chat Files"
        else base)
      ++ codes "/"
      ++ g.path_escape (trim_space filename)
      ++ suffix

  -- uploadURL
  upload_url : Text → Text
  unfolding named_url
  upload_url filename =
      named_url filename (codes ":/content") ++ codes "?" ++ g.encode (conflict ∷ select_fields)

  -- createUploadSessionURL
  create_upload_session_url : Text → Text
  unfolding named_url
  create_upload_session_url filename = named_url filename (codes ":/createUploadSession")

  session_of : Option Text → Result Text
  session_of none = err decode_failed
  session_of (some url) =
      if is_nil (trim_space url) then err missing_upload_session_url else ok (trim_space url)

  on_session : GraphReply × S → Result Text × S
  unfolding session_of
  on_session (failed, s) = (err request_failed, s)
  on_session (replied body, s) = (session_of body.session_url, s)

  -- CreateUploadSession
  pub create_upload_session : Text → S → Result Text × S
  unfolding on_session bearer create_upload_session_url
  create_upload_session filename s =
      if not c.has_http
      then (err missing_http_client, s)
      else if is_nil (trim_space c.access_token)
      then (err missing_access_token, s)
      else if is_nil (trim_space filename)
      then (err empty_filename, s)
      else on_session (
          g.exchange
            (record {
              method = codes "POST";
              url = create_upload_session_url filename;
              authorization = bearer;
              content_type = codes "application/json";
              body = object (conflict ∷ []);
            })
            s)

  item_of : GraphReply → Result UploadedDriveItem
  item_of failed = err request_failed
  item_of (replied body) = parse_uploaded_drive_item body.item

  get_request : Text → GraphRequest
  unfolding bearer
  get_request url = record {
    method = codes "GET";
    url = url;
    authorization = bearer;
    content_type = [];
    body = no_body;
  }

  -- GetDriveItem
  pub get_drive_item : Text → Result UploadedDriveItem
  unfolding item_of get_request
  get_drive_item drive_item_id =
      if not c.has_http
      then err missing_http_client
      else if is_nil (trim_space c.access_token)
      then err missing_access_token
      else if is_nil (trim_space drive_item_id)
      then err empty_drive_item_id
      else item_of (
          g.read (
            get_request (
              codes "https://graph.microsoft.com/v1.0/me/drive/items/"
              ++ g.path_escape (trim_space drive_item_id)
              ++ codes "?"
              ++ g.encode select_fields)))

  found : Result UploadedDriveItem → Option UploadedDriveItem
  found (ok item) = some item
  found (err e) = none

  -- the item that an upload looks up when a response lacks fields
  pub fetch_item : Text → Option UploadedDriveItem
  unfolding found get_drive_item
  fetch_item id = found (get_drive_item id)

  on_small : GraphReply × S → Upload × S
  on_small (failed, s) = (returned (err request_failed), s)
  on_small (replied body, s) = (
    returned (
        if body.readable then item_or_fetch fetch_item body.item body.item_id else err read_failed),
    s,
  )

  upload_small : Text → List ℕ → S → Upload × S
  unfolding on_small upload_url bearer
  upload_small filename content s = on_small (
      g.exchange
        (record {
          method = codes "PUT";
          url = upload_url filename;
          authorization = bearer;
          content_type = codes "application/octet-stream";
          body = bytes content;
        })
        s)

  in_chunks : ℕ → List ℕ → Result Text × S → Upload × S
  in_chunks fuel content (err e, s) = (returned (err e), s)
  in_chunks fuel content (ok url, s) =
      upload_file_in_chunks (g.put url) fetch_item fuel url content c.chunk_size s

  -- UploadTeamsChatFile; the fuel is that of the loop over the chunks.
  pub upload_teams_chat_file : ℕ → Text → List ℕ → S → Upload × S
  unfolding upload_small in_chunks
  upload_teams_chat_file fuel filename content s =
      if not c.has_http
      then (returned (err missing_http_client), s)
      else if is_nil (trim_space c.access_token)
      then (returned (err missing_access_token), s)
      else if is_nil (trim_space filename)
      then (returned (err empty_filename), s)
      else if is_nil content
      then (returned (err empty_content), s)
      else if ltb (limit_or c.max_upload_size default_max_upload_bytes) (length content)
      then (returned (err content_too_large), s)
      else if ltb (limit_or c.small_file_limit default_small_file_limit) (length content)
      then in_chunks fuel content (create_upload_session filename s)
      else upload_small filename content s

  link_of : Option (Text × Text) → Result CreatedShareLink
  link_of none = err decode_failed
  link_of (some (share_id, web_url)) =
      if is_nil (trim_space share_id)
      then err missing_create_link_share_id
      else if is_nil (trim_space web_url)
      then err missing_create_link_share_url
      else ok (record { share_id = trim_space share_id; share_url = trim_space web_url })

  on_share_link : GraphReply × S → Result CreatedShareLink × S
  unfolding link_of
  on_share_link (failed, s) = (err request_failed, s)
  on_share_link (replied body, s) = (link_of body.share, s)

  -- CreateShareLink
  pub create_share_link : Text → S → Result CreatedShareLink × S
  unfolding on_share_link bearer
  create_share_link list_item_unique_id s =
      if not c.has_http
      then (err missing_http_client, s)
      else if is_nil (trim_space c.access_token)
      then (err missing_access_token, s)
      else if is_nil (trim_space list_item_unique_id)
      then (err empty_list_item_unique_id, s)
      else on_share_link (
          g.exchange
            (record {
              method = codes "POST";
              url =
                  codes "https://graph.microsoft.com/v1.0/drive/items/"
                  ++ list_item_unique_id
                  ++ codes "/createLink";
              authorization = bearer;
              content_type = codes "application/json";
              body = object ((codes "type", codes "edit") ∷ []);
            })
            s)

  -- DriveItemContent: the bytes and the type
  content_of_reply : GraphReply → Result (List ℕ × Text)
  content_of_reply failed = err request_failed
  content_of_reply (replied body) =
      if not body.readable
      then err read_failed
      else if ltb (limit_or c.max_upload_size default_max_upload_bytes) (length body.content)
      then err content_too_large
      else ok (body.content, trim_space body.content_type)

  -- DownloadDriveItemContent
  pub download_drive_item_content : Text → Result (List ℕ × Text)
  unfolding content_of_reply get_request
  download_drive_item_content drive_item_id =
      if not c.has_http
      then err missing_http_client
      else if is_nil (trim_space c.access_token)
      then err missing_access_token
      else if is_nil (trim_space drive_item_id)
      then err empty_drive_item_id
      else content_of_reply (
          g.read (
            get_request (
              codes "https://graph.microsoft.com/v1.0/me/drive/items/"
              ++ g.path_escape (trim_space drive_item_id)
              ++ codes "/content")))
