-- ===== src/Graph/Item.antt =====
-- What Graph answers to an upload (internal/teams/graph/upload.go). A response body stands for what
-- encoding/json and io.ReadAll make of it.
use matrix_teams.Prelude.{
  ℕ, ℤ, Bool, Option, none, some, List, Text, trim_space, is_nil, if◌then◌else◌,
}

pub data GraphError : Type 0 where
  missing_http_client missing_access_token empty_filename empty_content content_too_large :
      GraphError
  empty_upload_url invalid_chunk_size missing_response decode_failed read_failed : GraphError
  missing_expected_ranges invalid_expected_range did_not_complete request_failed : GraphError
  missing_drive_item_id missing_list_item_unique_id missing_site_url : GraphError
  missing_upload_session_url empty_list_item_unique_id empty_drive_item_id : GraphError
  missing_create_link_share_id missing_create_link_share_url : GraphError
  chunk_upload : ℕ → GraphError

pub data Result {ℓ} (A : Type ℓ) : Type ℓ where
  ok : A → Result A
  err : GraphError → Result A

-- The fields of the JSON object that parseUploadedDriveItem reads; an absent one is empty.
pub record ItemPayload : Type 0 where
  pub id : Text
  pub name : Text
  pub size : ℤ
  pub list_item_unique_id : Text
  pub site_url : Text

pub record UploadedDriveItem : Type 0 where
  pub drive_item_id : Text
  pub list_item_unique_id : Text
  pub site_url : Text
  pub file_name : Text
  pub size : ℤ

-- The body of a response: whether it can be read, and what JSON decoding makes of it: as an item, as an
-- object with nothing but an identifier, and as one with `nextExpectedRanges`.
pub record Body : Type 0 where
  pub readable : Bool
  pub item : Option ItemPayload
  pub item_id : Option Text
  pub next_expected_ranges : Option (List Text)

-- parseUploadedDriveItem on what the decoder returned
unfoldable pub parse_uploaded_drive_item : Option ItemPayload → Result UploadedDriveItem
parse_uploaded_drive_item none = err decode_failed
parse_uploaded_drive_item (some p) =
    if is_nil (trim_space p.id)
    then err missing_drive_item_id
    else if is_nil (trim_space p.list_item_unique_id)
    then err missing_list_item_unique_id
    else if is_nil (trim_space p.site_url)
    then err missing_site_url
    else ok (record {
      drive_item_id = trim_space p.id;
      list_item_unique_id = trim_space p.list_item_unique_id;
      site_url = trim_space p.site_url;
      file_name = trim_space p.name;
      size = p.size;
    })

refetch : (Text → Option UploadedDriveItem) → GraphError → Text → Result UploadedDriveItem
refetch fetch e id =
    if is_nil (trim_space id) then err e else elim (fetch id) [ some item ↦ ok item | none ↦ err e ]

recover :
    (Text → Option UploadedDriveItem)
    → Result UploadedDriveItem
    → Option Text
    → Result UploadedDriveItem
unfolding refetch
recover fetch (ok item) minimal = ok item
recover fetch (err e) none = err e
recover fetch (err e) (some id) = refetch fetch e id

-- The follow-up of an upload whose response lacks fields: fetch the item if the body, decoded once
-- more for its identifier alone, has one.
unfoldable pub item_or_fetch :
    (Text → Option UploadedDriveItem) → Option ItemPayload → Option Text → Result UploadedDriveItem
unfolding recover parse_uploaded_drive_item
item_or_fetch fetch payload minimal = recover fetch (parse_uploaded_drive_item payload) minimal
