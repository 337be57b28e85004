-- ===== src/Graph/Requests/Drive.antt =====
-- An upload (internal/teams/graph/upload.go) to a drive that keeps what it is sent.
use matrix_teams.Prelude.{
  ℕ, ◌+◌, ◌*◌, ◌%◌, ◌^◌, ◌≤◌, ◌<◌, ◌≡◌, refl, inl, inr, true, false, Option, none, some, List, [],
  ◌∷◌, arith, ltb, if◌then◌else◌, length, is_nil, Text, trim_space, trim_space-IsTrimmed,
  Bool-cases, le→ltb,
}
use matrix_teams.Graph.Item.{ItemPayload, ok, item_or_fetch}
use matrix_teams.Graph.Chunks.{returned, chunk_size, chunk_size_align}
use matrix_teams.Graph.Chunks.Progress.{session, upload_complete}
use matrix_teams.Graph.Requests.{
  GraphClient, GraphRequest, RequestBody, no_body, bytes, object, GraphReply, failed, replied,
  Graph, limit_or, default_max_upload_bytes, default_small_file_limit, fetch_item, on_small,
  upload_small, in_chunks, session_of, on_session, create_upload_session, upload_teams_chat_file,
}

-- A body of JSON; what decodes as an item decodes to its identifier as well.
abbrev id_of : Option ItemPayload → Option Text
id_of none = none
id_of (some item) = some item.id

abbrev body_of : Option ItemPayload → Option Text → GraphReply
body_of item url = replied (record {
  readable = true;
  content = [];
  content_type = [];
  item = item;
  item_id = id_of item;
  session_url = url;
  share = none;
})

abbrev keep : ItemPayload → Text → RequestBody → List ℕ → GraphReply × List ℕ
keep item url no_body stored = (failed, stored)
keep item url (bytes content) stored = (body_of (some item) none, content)
keep item url (object fields) stored = (body_of none (some url), [])

-- A drive that stores a file of `total` bytes, sent at once or to the session at `url`, and answers
-- with the item.
abbrev pub drive :
    ItemPayload
    → Text
    → ℕ
    → (GraphRequest → GraphReply)
    → (Text → Text)
    → (List (Text × Text) → Text)
    → Graph (List ℕ)
drive item url total read path_escape encode = record {
  exchange = λ r stored. keep item url r.body stored;
  read = read;
  put = λ address. session item total;
  path_escape = path_escape;
  encode = encode;
}

-- A client that can upload, and a name for the file.
pub record CanUpload (c : GraphClient) (filename : Text) : Type 0 where
  pub connected : c.has_http ≡ true
  pub authorized : is_nil (trim_space c.access_token) ≡ false
  pub named : is_nil (trim_space filename) ≡ false
  pub aligned : chunk_size c.chunk_size % chunk_size_align ≡ 0

module _ (g : Graph (List ℕ)) (c : GraphClient) (filename : Text) (v : CanUpload c filename) where
  -- The guards pass.
  guards_pass :
      (fuel x : ℕ) (xs stored : List ℕ)
      → ltb (limit_or c.max_upload_size default_max_upload_bytes) (length (x ∷ xs)) ≡ false
      → upload_teams_chat_file g c fuel filename (x ∷ xs) stored ≡ (
          if ltb (limit_or c.small_file_limit default_small_file_limit) (length (x ∷ xs))
          then in_chunks g c fuel (x ∷ xs) (create_upload_session g c filename stored)
          else upload_small g c filename (x ∷ xs) stored)
  unfolding upload_teams_chat_file
  guards_pass fuel x xs stored h = rw v.connected (rw (v.authorized, v.named) (rw h refl))

module _ (item : ItemPayload) (url : Text) (total : ℕ) (read : GraphRequest → GraphReply)
    (path_escape : Text → Text) (encode : List (Text × Text) → Text) (c : GraphClient)
    (filename : Text) (v : CanUpload c filename) where
  abbrev g : Graph (List ℕ)
  g = drive item url total read path_escape encode

  session_lem :
      (stored : List ℕ)
      → is_nil (trim_space url) ≡ false
      → create_upload_session g c filename stored ≡ (ok (trim_space url), [])
  unfolding create_upload_session on_session session_of
  session_lem stored h = rw v.connected (rw (v.authorized, v.named) (rw h refl))

  small_lem :
      (content stored : List ℕ)
      → upload_small g c filename content stored
        ≡ (returned (item_or_fetch (fetch_item g c) (some item) (some item.id)), content)
  unfolding upload_small on_small
  small_lem content stored = refl

-- A file that is not empty and not above the limit is stored whole, and the result is the item of the
-- drive, in one piece or in chunks alike: what the caller sees does not depend on the way. Fuel for
-- one round per chunk is enough.
pub upload_teams_chat_file-stored :
    (item : ItemPayload) (url : Text) (read : GraphRequest → GraphReply) (path_escape : Text → Text)
    (encode : List (Text × Text) → Text) (c : GraphClient) (fuel : ℕ) (filename : Text)
    (content stored : List ℕ)
    → CanUpload c filename
    → is_nil (trim_space url) ≡ false
    → 0 < length content
    → length content ≤ limit_or c.max_upload_size default_max_upload_bytes
    → length content + chunk_size c.chunk_size < 2 ^ 63
    → length content ≤ fuel * chunk_size c.chunk_size
    → let g = drive item url (length content) read path_escape encode in
      upload_teams_chat_file g c fuel filename content stored
      ≡ (returned (item_or_fetch (fetch_item g c) (some item) (some item.id)), content)
upload_teams_chat_file-stored item url read esc enc c fuel filename [] stored v u p m b f =
    absurd (omega arith)
upload_teams_chat_file-stored item url read esc enc c fuel filename (x ∷ xs) stored v u p m b f =
    let g = drive item url (length (x ∷ xs)) read esc enc in
    rw (guards_pass g c filename v fuel x xs stored (le→ltb _ _ m))
      (elim (Bool-cases
        (ltb (limit_or c.small_file_limit default_small_file_limit) (length (x ∷ xs)))) [
          | inl large ↦ rw large (
              rw (session_lem item url (length (x ∷ xs)) read esc enc c filename v stored u) (
                unfold in_chunks in
                upload_complete item (fetch_item g c) fuel (trim_space url) (x ∷ xs) c.chunk_size
                  (rw (trim_space-IsTrimmed url) u) p v.aligned b f))
          | inr small ↦
              rw small
                (small_lem item url (length (x ∷ xs)) read esc enc c filename v (x ∷ xs) stored)
        ])
