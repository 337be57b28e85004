-- ===== src/Bridge/Examples.antt =====
-- A file of Matrix on its way (internal/bridge).
use matrix_teams.Prelude.{
  ◌≡◌, refl, true, false, ◌⊎◌, inl, inr, Option, none, some, List, [], ◌∷◌, Text, codes,
}
use matrix_teams.Bridge.Files.{
  MsgType, MessageEventContent, missing_mxc_url, extract_matrix_file_info,
}

abbrev content : Text → MessageEventContent
content url = record {
  msg_type = MsgType.file;
  body = codes "spec.pdf";
  filename = [];
  url = url;
  encrypted_url = none;
  info_mime_type = none;
  get_file_name = codes " ";
  get_caption = codes " hi ";
}

test_name_of_url :
    extract_matrix_file_info {E = Text} (λ s. some (codes "abc")) (content (codes "mxc://h/abc"))
    ≡ inr (record {
      mxc_url = codes "mxc://h/abc";
      file_name = codes "abc";
      mime_type = [];
      caption = codes "hi";
      is_encrypted = false;
    })
unfolding extract_matrix_file_info matrix_teams.Prelude.trim_space
test_name_of_url = refl

test_missing_url :
    extract_matrix_file_info {E = Text} (λ s. none) (content (codes " ")) ≡ inl missing_mxc_url
unfolding extract_matrix_file_info matrix_teams.Prelude.trim_space
test_missing_url = refl
