-- ===== src/Graph/Chunks/Examples.antt =====
-- Runs of internal/teams/graph/chunked_upload.go.
use matrix_teams.Prelude.{
  ◌≡◌, ◌≢◌, refl, false, Option, none, some, List, [], ◌∷◌, ℕ, pos, Text, codes, is_nil, trim_space,
  arith,
}
use matrix_teams.Graph.Item.{ok, UploadedDriveItem, ItemPayload, item_or_fetch}
use matrix_teams.Graph.Chunks.{
  returned, panicked, out_of_fuel, upload_file_in_chunks, upload_from, parse_next_expected_start,
}
use matrix_teams.Graph.Chunks.Requests.{upload_from-keeps}
use matrix_teams.Graph.Chunks.Progress.{
  upload_complete, upload_stalls, session, stalled, parse-open_range, open_range,
}

abbrev item : ItemPayload
item = record {
  id = codes "1";
  name = codes "a.txt";
  size = pos 3;
  list_item_unique_id = codes "u";
  site_url = codes "s";
}

fetch : Text → Option UploadedDriveItem
fetch id = none

abbrev content : List ℕ
content = 7 ∷ 8 ∷ 9 ∷ []

test_url : is_nil (trim_space (codes "https://up")) ≡ false
unfolding trim_space
test_url = refl

upload_complete_example :
    upload_file_in_chunks (session item 3) fetch 1 (codes "https://up") content 0 []
    ≡ (returned (item_or_fetch fetch (some item) (some item.id)), content)
upload_complete_example =
    upload_complete item fetch 1 (codes "https://up") content 0 test_url (omega arith) refl
      (omega arith) (omega arith)

upload_stalls_example : (upload_from stalled fetch 9 content 2 (pos 0) []).0 ≡ out_of_fuel
upload_stalls_example = upload_stalls fetch 9 content 2 [] (omega arith) (omega arith) (omega arith)

test_open_range : parse_next_expected_start (open_range 12345) ≡ ok (pos 12345)
test_open_range = parse-open_range 12345 (omega arith)

upload_from-keeps_example :
    Unit {0} × ((upload_from (session item 3) fetch 5 content 2 (pos 0) []).0 ≢ panicked)
upload_from-keeps_example =
    upload_from-keeps (session item 3) fetch content 2 (omega arith) (omega arith) (λ s. Unit)
      (λ i s h p. tt) 5 0 [] tt
