-- ===== src/Connector/Convert/Media.antt =====
-- The attachments that pkg/connector/convert.go downloads from the drive and uploads to Matrix.
use matrix_teams.Prelude.{
  ℕ, ◌+◌, Bool, false, not, ◌&&◌, ◌||◌, Option, none, some, List, [], ◌∷◌, ◌==◌, if◌then◌else◌,
  is_nil, length, Text, codes, text_eq, trim_space, to_lower, has_prefix,
}
use matrix_teams.Go.Path.{extension}
use matrix_teams.Model.Attachments.{TeamsAttachment}

pub record Downloaded : Type 0 where
  pub content_type : Text
  pub bytes : List ℕ

-- What UploadMedia returns: the address and, in an encrypted room, the address in the file's keys.
pub record Uploaded : Type 0 where
  pub mxc : Text
  pub file_url : Option Text

pub data MessageType : Type 0 where
  image video audio file : MessageType

pub record MediaContent : Type 0 where
  pub msg_type : MessageType
  pub body : Text
  pub filename : Text
  pub mime_type : Text
  pub size : ℕ
  pub url : Text
  pub file_url : Option Text

-- The Graph token, the download, the upload, and the standard library's guesses at a type: of a
-- content, and of a file name's extension.
pub record Matrix : Type 0 where
  pub has_graph_token : Bool
  pub download : Text → Option Downloaded
  pub upload : List ℕ → Text → Text → Option Uploaded
  pub sniff : List ℕ → Text
  pub type_by_extension : Text → Text

-- The text in front of the first semicolon.
before_semicolon : Text → Text
before_semicolon [] = []
before_semicolon (c ∷ s) = let rest = c ∷ before_semicolon s in if c == b';' then [] else rest

pub normalize_content_type : Text → Text
unfolding before_semicolon
normalize_content_type value = trim_space (before_semicolon (trim_space value))

abbrev pub octet_stream : Text
octet_stream = codes "application/octet-stream"

first_of : List Text → Text
first_of [] = octet_stream
first_of (t ∷ ts) = let rest = first_of ts in if is_nil t then rest else t

pub detect_mime_type : Matrix → Text → Text → List ℕ → Text
unfolding normalize_content_type extension first_of
detect_mime_type matrix filename header bytes =
    let header_type = normalize_content_type header in
    let ext = to_lower (extension (trim_space filename)) in
    first_of (
      (if text_eq header_type octet_stream then [] else header_type)
      ∷ (if is_nil bytes then [] else normalize_content_type (matrix.sniff bytes))
      ∷ (if is_nil ext then [] else normalize_content_type (matrix.type_by_extension ext))
      ∷ [])

pub matrix_msg_type_for_mime : Text → MessageType
matrix_msg_type_for_mime mime_type =
    let t = to_lower (trim_space mime_type) in
    if has_prefix t (codes "image/")
    then MessageType.image
    else if has_prefix t (codes "video/")
    then MessageType.video
    else if has_prefix t (codes "audio/")
    then MessageType.audio
    else MessageType.file

-- The address in the keys of an encrypted file, filled in where it is empty.
encrypted_url : Text → Option Text → Option Text
encrypted_url mxc none = none
encrypted_url mxc (some u) = some (if is_nil u && not (is_nil mxc) then mxc else u)

plain_url : Text → Option Text → Text
plain_url mxc none = mxc
plain_url mxc (some u) = []

pub build_media_content : MessageType → Text → Text → ℕ → Uploaded → MediaContent
unfolding encrypted_url plain_url
build_media_content msg_type filename mime_type size u = record {
  msg_type = msg_type;
  body = if is_nil (trim_space filename) then codes "file" else filename;
  filename = filename;
  mime_type = mime_type;
  size = size;
  url = plain_url u.mxc u.file_url;
  file_url = encrypted_url u.mxc u.file_url;
}

sent : TeamsAttachment → Text → ℕ → Option Uploaded → Option MediaContent
unfolding build_media_content matrix_msg_type_for_mime
sent a mime_type size none = none
sent a mime_type size (some u) = some (
    build_media_content (matrix_msg_type_for_mime mime_type) (trim_space a.filename) mime_type size
      u)

relay : Matrix → TeamsAttachment → Option Downloaded → Option MediaContent
unfolding sent detect_mime_type
relay matrix a none = none
relay matrix a (some d) =
    let mime_type = detect_mime_type matrix a.filename d.content_type d.bytes in
    if is_nil d.bytes
    then none
    else sent a mime_type (length d.bytes) (matrix.upload d.bytes (trim_space a.filename) mime_type)

-- The body of the loop: the content of the uploaded file, or nothing.
pub reupload : Matrix → TeamsAttachment → Option MediaContent
unfolding relay
reupload matrix a =
    if is_nil (trim_space a.drive_item_id)
    then none
    else relay matrix a (matrix.download (trim_space a.drive_item_id))

unfoldable pub sort_out :
    ℕ
    → TeamsAttachment
    → Option MediaContent
    → List (ℕ × MediaContent) × List TeamsAttachment
    → List (ℕ × MediaContent) × List TeamsAttachment
sort_out i a none (parts, fallback) = (parts, a ∷ fallback)
sort_out i a (some m) (parts, fallback) = ((i, m) ∷ parts, fallback)

unfoldable pub reupload_from :
    Matrix → ℕ → List TeamsAttachment → List (ℕ × MediaContent) × List TeamsAttachment
unfolding reupload sort_out
reupload_from matrix i [] = ([], [])
reupload_from matrix i (a ∷ rest) =
    sort_out i a (reupload matrix a) (reupload_from matrix (i + 1) rest)

-- reuploadInboundAttachments: the media with the numbers of their attachments, and the attachments
-- that stay links.
unfoldable pub reupload_inbound_attachments :
    Matrix → List TeamsAttachment → List (ℕ × MediaContent) × List TeamsAttachment
unfolding reupload_from
reupload_inbound_attachments matrix attachments =
    if matrix.has_graph_token then reupload_from matrix 0 attachments else ([], attachments)

unfoldable pub has_drive_item : List TeamsAttachment → Bool
has_drive_item [] = false
has_drive_item (a ∷ rest) = not (is_nil (trim_space a.drive_item_id)) || has_drive_item rest
