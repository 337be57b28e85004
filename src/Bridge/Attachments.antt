-- ===== src/Bridge/Attachments.antt =====
-- internal/bridge/send_attachment.go: upload, link, description, message.
use matrix_teams.Prelude.{
  ℕ, ◌⊎◌, inl, inr, Option, none, some, List, [], ltb, if◌then◌else◌, is_nil, length, ℤ, pos, leb_ℤ,
  pos_part, Text, trim_space,
}
use matrix_teams.Go.Path.{extension}
use matrix_teams.Client.Content.{format_html_content}
use matrix_teams.Graph.Item.{UploadedDriveItem}
use matrix_teams.Bridge.Files.{max_attachment_bytes}
use matrix_teams.Bridge.Descriptor.{
  CreatedShareLink, TeamsFileDescriptor, DescriptorError, build_teams_attachment_files_property,
}

-- The interfaces GraphAPI and TeamsSendAPI, on a state.
pub record GraphApi (S E : Type 0) : Type 0 where
  pub upload_teams_chat_file : Text → List ℕ → S → (E ⊎ UploadedDriveItem) × S
  pub create_share_link : Text → S → (E ⊎ CreatedShareLink) × S

pub record TeamsSendApi (S E : Type 0) : Type 0 where
  pub send_attachment_message_with_id : Text → Text → Text → Text → Text → S → Option E × S

pub data AttachmentError (E : Type 0) : Type 0 where
  missing_thread_id missing_filename missing_content exceeds_max_size : AttachmentError E
  missing_from_user_id : AttachmentError E
  upload link send : E → AttachmentError E
  files : DescriptorError → AttachmentError E

-- AttachmentOrchestrator with its interfaces set; `generate_message_id` is the function in force.
pub record AttachmentOrchestrator (S E : Type 0) : Type 0 where
  pub graph : GraphApi S E
  pub teams : TeamsSendApi S E
  pub from_user_id : Text
  pub max_bytes : ℤ
  pub generate_message_id : S → Text × S
  pub format_caption_to_html : Option (Text → Text)

module _ {S E : Type 0} (path_escape : Text → Text) (marshal : TeamsFileDescriptor → Text)
    (o : AttachmentOrchestrator S E) where
  abbrev pub Answer : Type 0
  Answer = (AttachmentError E ⊎ Text) × S

  abbrev formatter : Option (Text → Text) → Text → Text
  formatter none = format_html_content
  formatter (some f) = f

  caption_html : Text → Text
  unfolding format_html_content
  caption_html caption =
      if is_nil (trim_space caption) then [] else formatter o.format_caption_to_html caption

  on_message : Text → Option E × S → Answer
  on_message id (none, s) = (inr id, s)
  on_message id (some err, s) = (inl (send err), s)

  on_files : Text → Text → Text → DescriptorError ⊎ Text → S → Answer
  unfolding caption_html on_message
  on_files thread_id caption id (inl err) s = (inl (files err), s)
  on_files thread_id caption id (inr property) s = on_message id (
      o.teams.send_attachment_message_with_id thread_id (caption_html caption) property
        (trim_space o.from_user_id) id s)

  on_link : Text → Text → Text → Text → UploadedDriveItem → (E ⊎ CreatedShareLink) × S → Answer
  unfolding on_files
  on_link thread_id filename caption id uploaded (inl err, s) = (inl (link err), s)
  on_link thread_id filename caption id uploaded (inr share, s) =
      on_files thread_id caption id
        (build_teams_attachment_files_property path_escape marshal uploaded share filename
          (extension filename))
        s

  on_upload : Text → Text → Text → Text → (E ⊎ UploadedDriveItem) × S → Answer
  unfolding on_link
  on_upload thread_id filename caption id (inl err, s) = (inl (upload err), s)
  on_upload thread_id filename caption id (inr uploaded, s) =
      on_link thread_id filename caption id uploaded
        (o.graph.create_share_link uploaded.list_item_unique_id s)

  with_message_id : Text → Text → List ℕ → Text → Text × S → Answer
  unfolding on_upload
  with_message_id thread_id filename content caption (id, s) =
      on_upload thread_id filename caption id (o.graph.upload_teams_chat_file filename content s)

  limit : ℕ
  limit = if leb_ℤ o.max_bytes (pos 0) then max_attachment_bytes else pos_part o.max_bytes

  -- SendAttachmentMessage
  pub send_attachment_message : Text → Text → List ℕ → Text → S → Answer
  unfolding with_message_id limit
  send_attachment_message thread_id filename content caption s =
      if is_nil (trim_space thread_id)
      then (inl missing_thread_id, s)
      else if is_nil (trim_space filename)
      then (inl missing_filename, s)
      else if is_nil content
      then (inl missing_content, s)
      else if ltb limit (length content)
      then (inl exceeds_max_size, s)
      else if is_nil (trim_space o.from_user_id)
      then (inl missing_from_user_id, s)
      else with_message_id thread_id filename content caption (o.generate_message_id s)
