-- ===== src/Graph/Chunks.antt =====
-- internal/teams/graph/chunked_upload.go: a file is sent to an upload session chunk by chunk, and
-- each answer says where to go on.
pub mod Requests
pub mod Progress
mod Examples
use matrix_teams.Prelude.{
  ℕ, zero, suc, ◌+◌, ◌-◌, ◌%◌, ◌≤◌, ◌≡◌, Bool, true, false, not, ◌&&◌, ◌||◌, Option, none, some,
  List, [], ◌∷◌, ltb, leb, ◌==◌, if◌then◌else◌, length, is_nil, take, drop, ℤ, pos, negsuc,
  pos_part, neg_part, ltb_ℤ, leb_ℤ, add64, sub64, ◌-ℤ◌, ◌*◌, Text, trim_space,
}
use matrix_teams.Go.Strconv.{parse_int}
use matrix_teams.Graph.Item.{
  GraphError, Result, ok, err, UploadedDriveItem, Body, item_or_fetch, missing_response,
  empty_upload_url, empty_content, invalid_chunk_size, decode_failed, read_failed,
  missing_expected_ranges, invalid_expected_range, did_not_complete, request_failed, chunk_upload,
}

-- The text in front of the first dash: strings.IndexByte(v, '-') and v[:dash].
unfoldable pub before_dash : Text → Option Text
before_dash [] = none
before_dash (c ∷ v) =
    let rest = before_dash v in
    if c == b'-' then some [] else elim rest [ none ↦ none | some w ↦ some (c ∷ w) ]

-- parseNextExpectedStart
range_start : Option ℤ → Result ℤ
range_start none = err invalid_expected_range
range_start (some (negsuc n)) = err invalid_expected_range
range_start (some (pos n)) = ok (pos n)

leading_start : Option Text → Result ℤ
leading_start none = err invalid_expected_range
leading_start (some []) = err invalid_expected_range
leading_start (some (c ∷ s)) = range_start (parse_int (c ∷ s))

pub parse_next_expected_start : Text → Result ℤ
parse_next_expected_start range_value = leading_start (before_dash (trim_space range_value))

-- content[low:high]; `none` is the panic of a slice out of range.
unfoldable pub slice : List ℕ → ℤ → ℤ → Option (List ℕ)
slice content (negsuc n) high = none
slice content (pos low) (negsuc n) = none
slice content (pos low) (pos high) =
    if leb low high && leb high (length content)
    then some (take (high - low) (drop low content))
    else none

-- One PUT: the three numbers of its Content-Range, and its body.
pub record Put : Type 0 where
  pub start : ℤ
  pub end : ℤ
  pub total : ℤ
  pub chunk : List ℕ

-- What `executor.Do` returns: an error, no response or body, or a response.
pub data Reply : Type 0 where
  failed : Reply
  nothing : Reply
  response : ℕ → Body → Reply

-- How one round of the loop ends: the function returns, the loop goes on at a start, or it panics.
pub data Round : Type 0 where
  finish : Result UploadedDriveItem → Round
  resume : ℤ → Round
  crash : Round

resume_at : Result ℤ → Round
resume_at (ok next) = resume next
resume_at (err e) = finish (err e)

accepted : Option (List Text) → Round
unfolding resume_at
accepted none = finish (err decode_failed)
accepted (some []) = finish (err missing_expected_ranges)
accepted (some (r ∷ rs)) =
    if is_nil (trim_space r)
    then finish (err missing_expected_ranges)
    else resume_at (parse_next_expected_start r)

-- The branches on a response's status; `fetch` is GetDriveItem.
pub on_reply : (Text → Option UploadedDriveItem) → Reply → Round
on_reply fetch failed = finish (err request_failed)
on_reply fetch nothing = finish (err missing_response)
on_reply fetch (response status body) =
    if status == 202
    then accepted body.next_expected_ranges
    else if leb 200 status && ltb status 300
    then finish
        (if body.readable then item_or_fetch fetch body.item body.item_id else err read_failed)
    else finish (err (chunk_upload status))

-- How an upload ends: it returns, it panics, or the model's fuel ends.
pub data Upload : Type 0 where
  returned : Result UploadedDriveItem → Upload
  panicked : Upload
  out_of_fuel : Upload

abbrev pub default_chunk_size : ℕ
default_chunk_size = 5 * 1024 * 1024

abbrev pub chunk_size_align : ℕ
chunk_size_align = 320 * 1024

-- The chunk size in force: 0 stands for a configured size that is not positive.
abbrev pub chunk_size : ℕ → ℕ
chunk_size configured = if configured == 0 then default_chunk_size else configured

-- end of the chunk at `start`, its last byte included
pub last_byte : ℕ → ℕ → ℤ → ℤ
unfolding add64 sub64
last_byte size total start =
    let last = sub64 (add64 start (pos size)) (pos 1) in
    if leb_ℤ (pos total) last then pos total -ℤ pos 1 else last

-- The server and the executor in front of it: from a state, a request gives a reply and a new state.
module _ {S : Type 0} (put : S → Put → Reply × S) (fetch : Text → Option UploadedDriveItem) where
  -- the request of one round, and what its reply means
  send : ℕ → ℤ → ℤ → Option (List ℕ) → S → Round × S
  send total start last none s = (crash, s)
  send total start last (some chunk) s =
      let (reply, s') =
        put s (record { start = start; end = last; total = pos total; chunk = chunk }) in
      (on_reply fetch reply, s')

  pub round : List ℕ → ℕ → ℤ → S → Round × S
  unfolding send add64
  round content size start s =
      let last = last_byte size (length content) start in
      send (length content) start last (slice content start (add64 last (pos 1))) s

  -- what the loop does with a round's end; `again` is the rest of the loop
  pub after_round : (ℤ → S → Upload × S) → Round → S → Upload × S
  after_round again (finish result) s = (returned result, s)
  after_round again (resume next) s = again next s
  after_round again crash s = (panicked, s)

  -- the loop `for start < total`, on fuel
  pub upload_from : ℕ → List ℕ → ℕ → ℤ → S → Upload × S
  upload_from zero content size start s = (out_of_fuel, s)
  upload_from (suc fuel) content size start s =
      let (r, s') = round content size start s in
      let next = after_round (upload_from fuel content size) r s' in
      if ltb_ℤ start (pos (length content)) then next else (returned (err did_not_complete), s)

  -- UploadFileInChunks on a client that is not nil.
  pub upload_file_in_chunks : ℕ → Text → List ℕ → ℕ → S → Upload × S
  unfolding upload_from
  upload_file_in_chunks fuel upload_url content configured s =
      if is_nil (trim_space upload_url)
      then (returned (err empty_upload_url), s)
      else if is_nil content
      then (returned (err empty_content), s)
      else if not (chunk_size configured % chunk_size_align == 0)
      then (returned (err invalid_chunk_size), s)
      else upload_from fuel content (chunk_size configured) (pos 0) s
