-- ===== src/Connector/Gif.antt =====
-- pkg/connector/gif.go: an image message that Teams can show as a GIF.
use matrix_teams.Prelude.{
  Bool, false, ◌||◌, Option, none, some, [], ◌∷◌, if◌then◌else◌, is_nil, is_some, Text, codes,
  trim_space, to_lower, equal_fold, has_suffix, one_of,
}
use matrix_teams.Bridge.Files.{MessageEventContent}

-- What url.Parse makes of a text: scheme, path, and the text that String prints.
pub record ParsedUrl : Type 0 where
  pub scheme : Text
  pub path : Text
  pub string : Text

ends_in_gif : Text → Bool
ends_in_gif s = has_suffix (to_lower s) (codes ".gif")

module _ (parse_url : Text → Option ParsedUrl) where
  direct : Option ParsedUrl → Option Text
  unfolding ends_in_gif
  direct none = none
  direct (some u) =
      if one_of (to_lower u.scheme) (codes "http" ∷ codes "https" ∷ [])
      then (if ends_in_gif u.path then some u.string else none)
      else none

  -- parseDirectGIFURL
  pub parse_direct_gif_url : Text → Option Text
  unfolding direct
  parse_direct_gif_url value = direct (parse_url (trim_space value))

  is_gif_type : Option Text → Bool
  is_gif_type none = false
  is_gif_type (some mime_type) = equal_fold (trim_space mime_type) (codes "image/gif")

  -- looksLikeGIFMessage
  pub looks_like_gif_message : MessageEventContent → Bool
  unfolding is_gif_type ends_in_gif parse_direct_gif_url
  looks_like_gif_message content =
      is_gif_type content.info_mime_type
      || ends_in_gif (trim_space content.filename)
      || ends_in_gif (trim_space content.body)
      || is_some (parse_direct_gif_url (trim_space content.url))

  either_url : Text → Option Text → Option Text → Option (Text × Text)
  either_url title (some gif_url) other = some (title, gif_url)
  either_url title none (some gif_url) = some (title, gif_url)
  either_url title none none = none

  title_of : MessageEventContent → Text
  title_of content =
      let title = trim_space content.filename in
      let title' = if is_nil title then trim_space content.body else title in
      if is_nil title' then codes "GIF" else title'

  -- extractOutboundGIF: the title and the URL
  pub extract_outbound_gif : MessageEventContent → Option (Text × Text)
  unfolding looks_like_gif_message either_url title_of parse_direct_gif_url
  extract_outbound_gif content =
      if looks_like_gif_message content
      then either_url (title_of content) (parse_direct_gif_url (trim_space content.url))
          (parse_direct_gif_url (trim_space content.body))
      else none
