-- ===== src/Bridge/Descriptor.antt =====
-- internal/teams/attachments/files_builder.go: the property `files` of a message with a file.
use matrix_teams.Prelude.{
  ◌⊎◌, inl, inr, ◌++◌, if◌then◌else◌, is_nil, Text, codes, trim_space, trim_prefix,
}
use matrix_teams.Go.Path.{trim_slashes}
use matrix_teams.Graph.Item.{UploadedDriveItem}

pub record CreatedShareLink : Type 0 where
  pub share_id : Text
  pub share_url : Text

-- teamsFileDescriptor: the fields that depend on the file, under their paths.
pub record TeamsFileDescriptor : Type 0 where
  pub item_id : Text
  pub file_name : Text
  pub file_type : Text
  pub info_item_id : Text
  pub info_file_url : Text
  pub info_site_url : Text
  pub info_share_url : Text
  pub info_share_id : Text
  pub id : Text
  pub base_url : Text
  pub object_url : Text
  pub type : Text
  pub title : Text

pub data DescriptorError : Type 0 where
  empty_filename empty_list_item_id empty_drive_item : DescriptorError

-- The packages url and json: the escape of a path, and the JSON of a list of one descriptor.
module _ (path_escape : Text → Text) (marshal : TeamsFileDescriptor → Text) where
  pub descriptor_of : UploadedDriveItem → CreatedShareLink → Text → Text → TeamsFileDescriptor
  unfolding trim_slashes
  descriptor_of uploaded share filename file_ext =
      let name = trim_space filename in
      let site = trim_space uploaded.site_url in
      let file_url =
        trim_slashes site ++ codes "/Documents/Microsoft Teams Chat Files/" ++ path_escape name in
      let ext = trim_prefix (trim_space file_ext) (codes ".") in
      record {
        item_id = trim_space uploaded.list_item_unique_id;
        file_name = name;
        file_type = ext;
        info_item_id = trim_space uploaded.drive_item_id;
        info_file_url = file_url;
        info_site_url = site;
        info_share_url = trim_space share.share_url;
        info_share_id = trim_space share.share_id;
        id = trim_space uploaded.list_item_unique_id;
        base_url = site;
        object_url = file_url;
        type = ext;
        title = name;
      }

  -- BuildTeamsAttachmentFilesProperty on an item and a link that are there
  pub build_teams_attachment_files_property :
      UploadedDriveItem → CreatedShareLink → Text → Text → DescriptorError ⊎ Text
  unfolding descriptor_of
  build_teams_attachment_files_property uploaded share filename file_ext =
      if is_nil (trim_space filename)
      then inl empty_filename
      else if is_nil (trim_space uploaded.list_item_unique_id)
      then inl empty_list_item_id
      else if is_nil (trim_space uploaded.drive_item_id)
      then inl empty_drive_item
      else inr (marshal (descriptor_of uploaded share filename file_ext))
