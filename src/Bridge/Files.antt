-- ===== src/Bridge/Files.antt =====
-- internal/bridge/matrix_file_handler.go: a file message of Matrix is downloaded and handed on.
pub mod Steps
use matrix_teams.Prelude.{
  ℕ, Bool, true, false, ◌⊎◌, inl, inr, Option, none, some, List, [], ◌∷◌, ltb, leb, if◌then◌else◌,
  is_nil, length, Text, codes, trim_space,
}

-- What the code asks of the message type.
pub data MsgType : Type 0 where
  text image file video audio other : MsgType

-- An event.MessageEventContent, with what GetFileName and GetCaption answer, the URL of its encrypted
-- file and the MIME type of its info.
pub record MessageEventContent : Type 0 where
  pub msg_type : MsgType
  pub body : Text
  pub filename : Text
  pub url : Text
  pub encrypted_url : Option Text
  pub info_mime_type : Option Text
  pub get_file_name : Text
  pub get_caption : Text

pub record MatrixFileInfo : Type 0 where
  pub mxc_url : Text
  pub file_name : Text
  pub mime_type : Text
  pub caption : Text
  pub is_encrypted : Bool

abbrev pub max_attachment_bytes : ℕ
max_attachment_bytes = 104_857_600

pub data FileError (E : Type 0) : Type 0 where
  not_a_file_message missing_mxc_url exceeds_max_size : FileError E
  download_failed : E → FileError E
  send_failed : E → FileError E

abbrev pub is_file : MsgType → Bool
is_file MsgType.text = false
is_file image = true
is_file file = true
is_file video = true
is_file audio = true
is_file other = false

pub location : MessageEventContent → Option Text → Text × Bool
location content none = (trim_space content.url, false)
location content (some url) = (trim_space url, true)

text_of : Option Text → Text
text_of none = []
text_of (some s) = s

-- The first text that is not blank.
first_named : Text → Text → Text → Text
first_named a b c =
    if is_nil (trim_space a)
    then (if is_nil (trim_space b) then c else trim_space b)
    else trim_space a

-- ExtractMatrixFileInfo on a content that is there; `file_id` is what id.ContentURIString.Parse
-- finds behind the server.
unfoldable pub extract_matrix_file_info :
    {E : Type 0} → (Text → Option Text) → MessageEventContent → FileError E ⊎ MatrixFileInfo
unfolding location text_of first_named
extract_matrix_file_info file_id content =
    let (mxc_url, is_encrypted) = location content content.encrypted_url in
    if is_file content.msg_type
    then (if is_nil mxc_url
        then inl missing_mxc_url
        else inr (record {
          mxc_url = mxc_url;
          file_name = first_named content.get_file_name (text_of (file_id mxc_url)) (codes "file");
          mime_type = trim_space (text_of content.info_mime_type);
          caption = trim_space content.get_caption;
          is_encrypted = is_encrypted;
        }))
    else inl not_a_file_message

module _ {S E : Type 0} (file_id : Text → Option Text)
    (download : Text → Bool → S → (E ⊎ List ℕ) × S)
    (send : Text → Text → List ℕ → Text → S → Option E × S) where
  on_sent : Option E × S → Option (FileError E) × S
  on_sent (none, s) = (none, s)
  on_sent (some err, s) = (some (send_failed err), s)

  on_downloaded : Text → MatrixFileInfo → (E ⊎ List ℕ) × S → Option (FileError E) × S
  unfolding on_sent
  on_downloaded thread_id info (inl err, s) = (some (download_failed err), s)
  on_downloaded thread_id info (inr bytes, s) =
      if ltb max_attachment_bytes (length bytes)
      then (some exceeds_max_size, s)
      else on_sent (send (trim_space thread_id) info.file_name bytes info.caption s)

  on_file_info : Text → FileError E ⊎ MatrixFileInfo → S → Option (FileError E) × S
  unfolding on_downloaded
  on_file_info thread_id (inl err) s = (some err, s)
  on_file_info thread_id (inr info) s =
      on_downloaded thread_id info (download info.mxc_url info.is_encrypted s)

  -- HandleOutboundMatrixFile, with both functions given; `none` is success.
  pub handle_outbound_matrix_file : Text → MessageEventContent → S → Option (FileError E) × S
  unfolding on_file_info
  handle_outbound_matrix_file thread_id content s =
      on_file_info thread_id (extract_matrix_file_info file_id content) s
