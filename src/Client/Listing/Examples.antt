-- ===== src/Client/Listing/Examples.antt =====
-- A page of three entries, of which one repeats another (internal/teams/client/messages.go).
use matrix_teams.Prelude.{
  ◌≡◌, refl, none, some, List, [], ◌∷◌, min, is_nil, if◌then◌else◌, pos, Text, codes, map,
  trim_space, one_of,
}
use matrix_teams.Go.Sort.{insertion_sorter, insertion_sort, insert_sorted, count, IsAscending}
use matrix_teams.Go.Strconv.{parse_uint}
use matrix_teams.Model.Message.{RemoteMessage}
use matrix_teams.Model.Extract.{extract_sender_id}
use matrix_teams.Client.Listing.{
  Packages, RawMessage, RawSequence, string, number, normalize_sequence_id, list_page,
  classify_fetch,
}
use matrix_teams.Client.Listing.Page.{
  has_id, raw_has_id, number_of, list_page_once, list_page-IsAscending,
}

abbrev packages : Packages
packages = record {
  web = record { unescape = λ s. s; scheme_of = λ s. none; parse = λ s. none };
  rfc3339_nano = λ s. none;
  rfc3339 = λ s. some (pos 5);
  parse_float = λ s. none;
  path_escape = λ s. s;
  sorter = insertion_sorter;
}

abbrev raw : Text → RawSequence → RawMessage
raw id seq = record {
  id = id;
  client_message_id = [];
  sequence_id = seq;
  original_arrival_time = codes "t";
  sender = some (codes "https://x/8:ann");
  im_display_name = [];
  from_display_name_in_token = [];
  content = some (codes "hi");
  files = [];
  files_string = none;
  emotions = [];
}

abbrev page : List RawMessage
page =
    raw (codes "b") (number (codes "10"))
    ∷ raw (codes "a") (string (codes "9"))
    ∷ raw (codes "b ") (string (codes "11"))
    ∷ []

test_sender : extract_sender_id (some (codes "https://x/8:ann")) ≡ codes "8:ann"
unfolding extract_sender_id matrix_teams.Model.Extract.extract_sender_id_value trim_space
test_sender = refl

test_sequences :
    (elim (list_page packages page) [ none ↦ [] | some ms ↦ map (λ m. m.sequence_id) ms ])
    ≡ codes "9" ∷ codes "10" ∷ []
unfolding list_page trim_space one_of normalize_sequence_id insertion_sort insert_sorted
    matrix_teams.Client.Listing.earlier matrix_teams.Model.Sequence.compare_sequence_id
test_sequences = refl

list_page_once_example :
    (result : List RemoteMessage) × ((list_page packages page ≡ some result)
      × (count (has_id (codes "b")) result ≡ (
          let n = count (raw_has_id (codes "b")) page in
          if is_nil (codes "b") then n else min 1 n)))
unfolding normalize_sequence_id
list_page_once_example =
    list_page_once packages page (codes "b")
      ((codes "10", refl), ((codes "9", refl), ((codes "11", refl), tt)))

list_page-IsAscending_example :
    (result : List RemoteMessage) × ((list_page packages page ≡ some result)
      × IsAscending number_of result)
unfolding normalize_sequence_id parse_uint
list_page-IsAscending_example = list_page-IsAscending packages page (
  (codes "10", (10, (refl, refl))),
  ((codes "9", (9, (refl, refl))), ((codes "11", (11, (refl, refl))), tt)),
)
