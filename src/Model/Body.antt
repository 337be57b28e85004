-- ===== src/Model/Body.antt =====
-- The content of a message: `NormalizeMessageBody` of internal/teams/model/message_html.go and
-- `ExtractContent` and `ParseGIFsFromHTML` behind it (message.go, gif.go).
use matrix_teams.Prelude.{
  ℕ, Bool, false, ◌&&◌, ◌||◌, Option, none, some, List, [], ◌∷◌, ◌++◌, leb, ◌==◌, if◌then◌else◌,
  is_nil, Text, codes, lower,
}
use matrix_teams.Model.Message.{TeamsGif}
use matrix_teams.Model.Markup.{Node}
use matrix_teams.Model.Markup.Plain.{normalize_plain_text}
use matrix_teams.Model.Markup.Formatted.{normalize_html_fragment}
use matrix_teams.Model.Markup.Gifs.{collect_gifs}

pub record MessageContent : Type 0 where
  pub body : Text
  pub formatted_body : Text
  pub gifs : List TeamsGif

-- `\s` of a regular expression
is_blank : ℕ → Bool
is_blank c = c == b'\t' || c == b'\n' || c == 12 || c == b'\r' || c == b' '

skip_blanks : Text → Text
unfolding is_blank
skip_blanks [] = []
skip_blanks (c ∷ s) = let rest = skip_blanks s in if is_blank c then rest else c ∷ s

skip_slash : Text → Text
skip_slash [] = []
skip_slash (c ∷ s) = if c == b'/' then s else c ∷ s

holds : ℕ → Text → Bool
holds d [] = false
holds d (c ∷ s) = c == d || holds d s

-- A letter, and a closing bracket somewhere behind it.
is_tag_name : Text → Bool
unfolding holds
is_tag_name [] = false
is_tag_name (c ∷ s) = leb b'a' (lower c) && leb (lower c) b'z' && holds b'>' s

-- looksLikeHTML: the pattern `(?i)<\s*/?\s*[a-z][^>]*>`
pub looks_like_html : Text → Bool
unfolding skip_blanks skip_slash is_tag_name
looks_like_html [] = false
looks_like_html (c ∷ s) =
    c == b'<' && is_tag_name (skip_blanks (skip_slash (skip_blanks s))) || looks_like_html s

abbrev pub no_content : MessageContent
no_content = record { body = []; formatted_body = []; gifs = [] }

-- What the code reads of the packages html, net/url and golang.org/x/net/html.
pub record Web : Type 0 where
  pub unescape : Text → Text
  pub scheme_of : Text → Option Text
  pub parse : Text → Option Node

module _ (web : Web) where
  pub content_of : Text → Option (Text × Text) → MessageContent
  content_of normalized none = record { body = normalized; formatted_body = []; gifs = [] }
  content_of normalized (some (body, formatted)) =
      if is_nil body
      then no_content
      else record { body = body; formatted_body = formatted; gifs = [] }

  pub normalize_message_body : Text → MessageContent
  unfolding content_of
  normalize_message_body raw =
      let normalized = normalize_plain_text (web.unescape raw) in
      if is_nil normalized
      then no_content
      else if looks_like_html raw
      then content_of normalized (normalize_html_fragment web.scheme_of web.parse raw)
      else record { body = normalized; formatted_body = []; gifs = [] }

  gifs_of : Option Node → List TeamsGif
  gifs_of none = []
  gifs_of (some doc) = collect_gifs web.scheme_of doc []

  -- ParseGIFsFromHTML: an empty list stands for its failure.
  pub parse_gifs_from_html : Text → List TeamsGif
  unfolding gifs_of
  parse_gifs_from_html raw =
      if looks_like_html raw
      then gifs_of (web.parse (codes "<div>" ++ raw ++ codes "</div>"))
      else []

  -- ExtractContent: the text is that of a JSON string or of the object's field, `none` for a value
  -- that is absent or neither.
  pub extract_content : Option Text → MessageContent
  unfolding normalize_message_body parse_gifs_from_html
  extract_content none = no_content
  extract_content (some plain) = record (normalize_message_body plain) {
    gifs = parse_gifs_from_html plain;
  }
