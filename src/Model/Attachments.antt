-- ===== src/Model/Attachments.antt =====
-- The files of a message: internal/teams/model/attachment.go, on decoded JSON.
use matrix_teams.Prelude.{
  ◌&&◌, ◌||◌, Option, none, some, List, [], ◌∷◌, if◌then◌else◌, is_nil, Text, codes, text_eq,
  trim_space, has_prefix,
}

pub record TeamsAttachment : Type 0 where
  pub filename : Text
  pub drive_item_id : Text
  pub share_url : Text
  pub download_url : Text
  pub file_type : Text

-- An entry of the decoded list.
pub record FileEntry : Type 0 where
  pub file_name : Text
  pub item_id : Text
  pub share_url : Text
  pub file_url : Text
  pub file_type : Text

-- ExtractFilesProperty: the raw text of the field `files`, and the string that it decodes to, if
-- it is one.
pub extract_files_property : Text → Option Text → Text
extract_files_property files (some encoded) =
    let raw = trim_space files in
    if is_nil raw || text_eq raw (codes "null") then [] else trim_space encoded
extract_files_property files none =
    let raw = trim_space files in
    if is_nil raw || text_eq raw (codes "null")
    then []
    else if has_prefix raw (codes "[")
    then raw
    else []

pub attachments_of : List FileEntry → List TeamsAttachment
attachments_of [] = []
attachments_of (e ∷ es) =
    let rest = attachments_of es in
    let filename = trim_space e.file_name in
    let drive_item_id = trim_space e.item_id in
    let share_url = trim_space e.share_url in
    let attachment : TeamsAttachment = record {
      filename = filename;
      drive_item_id = drive_item_id;
      share_url = share_url;
      download_url = trim_space e.file_url;
      file_type = trim_space e.file_type;
    } in
    if is_nil filename || is_nil share_url && is_nil drive_item_id then rest else attachment ∷ rest

-- What json.Unmarshal makes of a text as a string and as a list of entries.
module _ (decode_string : Text → Option Text)
    (decode_entries : Text → Option (List FileEntry)) where
  unquoted : Text → Option Text → Text
  unquoted trimmed none = trimmed
  unquoted trimmed (some decoded) = trim_space decoded

  decoded : Option (List FileEntry) → List TeamsAttachment
  decoded none = []
  decoded (some entries) = attachments_of entries

  -- ParseAttachments: an empty list stands for its failure.
  pub parse_attachments : Text → List TeamsAttachment
  unfolding unquoted decoded
  parse_attachments raw =
      let trimmed = trim_space raw in
      let inner =
        if has_prefix trimmed (codes "\"")
        then unquoted trimmed (decode_string trimmed)
        else trimmed in
      if is_nil trimmed || text_eq trimmed (codes "[]")
      then []
      else if is_nil inner || text_eq inner (codes "[]")
      then []
      else decoded (decode_entries inner)
