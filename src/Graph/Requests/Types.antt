-- ===== src/Graph/Requests/Types.antt =====
-- What is sent to Graph and what comes back (internal/teams/graph).
use matrix_teams.Prelude.{
  ℕ, Bool, Option, List, [], ◌∷◌, ◌*◌, if◌then◌else◌, ℤ, pos, pos_part, leb_ℤ, Text, codes,
}
use matrix_teams.Graph.Item.{ItemPayload}
use matrix_teams.Graph.Chunks.{Put, Reply}

abbrev pub default_max_upload_bytes : ℕ
default_max_upload_bytes = 100 * 1024 * 1024

abbrev pub default_small_file_limit : ℕ
default_small_file_limit = 4 * 1024 * 1024

-- GraphClient; a chunk size of 0 stands for one that is not positive.
pub record GraphClient : Type 0 where
  pub has_http : Bool
  pub access_token : Text
  pub upload_base_url : Text
  pub max_upload_size : ℤ
  pub small_file_limit : ℤ
  pub chunk_size : ℕ

pub data RequestBody : Type 0 where
  no_body : RequestBody
  bytes : List ℕ → RequestBody
  object : List (Text × Text) → RequestBody

pub record GraphRequest : Type 0 where
  pub method : Text
  pub url : Text
  pub authorization : Text
  pub content_type : Text
  pub body : RequestBody

-- The body of a successful response, as the readers of it see it: whether it can be read, its bytes,
-- its type, and what JSON decoding makes of it.
pub record GraphBody : Type 0 where
  pub readable : Bool
  pub content : List ℕ
  pub content_type : Text
  pub item : Option ItemPayload
  pub item_id : Option Text
  pub session_url : Option Text
  pub share : Option (Text × Text)

-- What the executor returns: an error, which the classifiers make of any status but 2xx, or a body.
pub data GraphReply : Type 0 where
  failed : GraphReply
  replied : GraphBody → GraphReply

-- Graph behind the executor. A GET changes nothing, and an upload makes one at most, so its answer
-- depends on the request alone. `put` is the upload session at an address. url.PathEscape and
-- url.Values.Encode are those of Go.
pub record Graph (S : Type 0) : Type 0 where
  pub exchange : GraphRequest → S → GraphReply × S
  pub read : GraphRequest → GraphReply
  pub put : Text → S → Put → Reply × S
  pub path_escape : Text → Text
  pub encode : List (Text × Text) → Text

-- a limit, or its default where it is not positive
abbrev pub limit_or : ℤ → ℕ → ℕ
limit_or configured default = if leb_ℤ configured (pos 0) then default else pos_part configured

abbrev pub select_fields : List (Text × Text)
select_fields = (codes "$select", codes "id,name,size,sharepointIds,parentReference") ∷ []

abbrev pub conflict : Text × Text
conflict = (codes "@microsoft.graph.conflictBehavior", codes "rename")
