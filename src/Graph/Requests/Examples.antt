-- ===== src/Graph/Requests/Examples.antt =====
-- Runs of the requests of internal/teams/graph.
use matrix_teams.Prelude.{
  ℕ, ◌≡◌, refl, true, false, some, List, [], ◌∷◌, pos, codes, is_nil, trim_space, arith,
}
use matrix_teams.Graph.Item.{ItemPayload, err, item_or_fetch, empty_drive_item_id}
use matrix_teams.Graph.Chunks.{returned}
use matrix_teams.Graph.Requests.{
  GraphClient, failed, Graph, fetch_item, upload_teams_chat_file, get_drive_item,
}
use matrix_teams.Graph.Requests.Drive.{CanUpload, drive, upload_teams_chat_file-stored}

-- Two bytes at most in one piece.
abbrev client : GraphClient
client = record {
  has_http = true;
  access_token = codes "t";
  upload_base_url = [];
  max_upload_size = pos 0;
  small_file_limit = pos 2;
  chunk_size = 0;
}

abbrev item : ItemPayload
item = record {
  id = codes "1";
  name = codes "a.txt";
  size = pos 3;
  list_item_unique_id = codes "u";
  site_url = codes "s";
}

client-CanUpload : CanUpload client (codes "a.txt")
unfolding trim_space
client-CanUpload = record { connected = refl; authorized = refl; named = refl; aligned = refl }

url_named : is_nil (trim_space (codes "https://up")) ≡ false
unfolding trim_space
url_named = refl

abbrev disk : Graph (List ℕ)
disk = drive item (codes "https://up") 3 (λ r. failed) (λ t. t) (λ q. [])

-- Three bytes go in chunks.
upload_teams_chat_file-stored_example :
    upload_teams_chat_file disk client 1 (codes "a.txt") (7 ∷ 8 ∷ 9 ∷ []) []
    ≡ (returned (item_or_fetch (fetch_item disk client) (some item) (some item.id)), 7 ∷ 8 ∷ 9 ∷ [])
upload_teams_chat_file-stored_example =
    upload_teams_chat_file-stored item (codes "https://up") (λ r. failed) (λ t. t) (λ q. []) client
      1 (codes "a.txt") (7 ∷ 8 ∷ 9 ∷ []) [] client-CanUpload url_named (omega arith) (omega arith)
      (omega arith) (omega arith)

test_unnamed : get_drive_item disk client (codes " ") ≡ err empty_drive_item_id
unfolding get_drive_item trim_space
test_unnamed = refl
