-- ===== src/Model/Markup/Formatted.antt =====
-- The sanitised HTML of a fragment: `renderFormattedNode` and `normalizeHTMLFragment` of
-- internal/teams/model/message_html.go.
pub mod Safe
use matrix_teams.Prelude.{
  Bool, true, false, not, ◌&&◌, ◌||◌, Option, none, some, List, [], ◌∷◌, ◌++◌, if◌then◌else◌,
  is_nil, Text, codes, one_of, to_lower, trim_space,
}
use matrix_teams.Go.Html.{escape_string}
use matrix_teams.Model.Markup.{
  Node, Nodes, Attribute, text, element, other, nil, cons, allowed_formatted_tags, is_unsafe_tag,
  find_attribute, find_wrapper_div,
}
use matrix_teams.Model.Markup.Plain.{render_plain_nodes, normalize_plain_text}

abbrev pub safe_schemes : List Text
safe_schemes = codes "http" ∷ codes "https" ∷ codes "mailto" ∷ codes "matrix" ∷ []

-- The scheme by which a link is let through.
unfoldable pub with_scheme : List Text → Text → Option Text → Option Text
with_scheme schemes value none = none
with_scheme schemes value (some scheme) =
    if one_of (to_lower scheme) schemes then some value else none

-- `scheme_of` is the scheme that url.Parse reads, `none` where it fails.
module _ (scheme_of : Text → Option Text) where
  pub sanitize_href : Text → Option Text
  unfolding with_scheme
  sanitize_href raw =
      let value = trim_space raw in
      if is_nil value then none else with_scheme safe_schemes value (scheme_of value)

  pub extract_safe_href : Option Text → Option Text
  unfolding sanitize_href
  extract_safe_href none = none
  extract_safe_href (some value) = sanitize_href value

  pub href_attribute : Option Text → Text
  href_attribute none = []
  href_attribute (some href) = codes " href=\"" ++ escape_string href ++ codes "\""

  -- the opening tag of an allowed element
  pub opening : Text → List Attribute → Text
  unfolding extract_safe_href href_attribute
  opening tag attributes =
      let href = extract_safe_href (find_attribute (codes "href") attributes) in
      codes "<"
      ++ tag
      ++ (if one_of tag (codes "a" ∷ []) then href_attribute href else [])
      ++ codes ">"

  pub closing : Text → Text
  closing tag = codes "</" ++ tag ++ codes ">"

  -- What is appended to the builder, and whether a tag was rendered.
  unfoldable mutual
    unfolding opening closing

    pub render_formatted_node : Node → Text × Bool
    render_formatted_node (text t) = (escape_string t, false)
    render_formatted_node (element name attributes children) =
        let tag = to_lower name in
        let inner = render_formatted_nodes children in
        if is_unsafe_tag tag
        then ([], false)
        else if one_of tag (codes "br" ∷ [])
        then (codes "<br>", true)
        else if not (one_of tag allowed_formatted_tags)
        then inner
        else (opening tag attributes ++ inner.0 ++ closing tag, true)
    render_formatted_node (other children) = render_formatted_nodes children

    pub render_formatted_nodes : Nodes → Text × Bool
    render_formatted_nodes nil = ([], false)
    render_formatted_nodes (cons n ns) =
        let first = render_formatted_node n in
        let rest = render_formatted_nodes ns in (first.0 ++ rest.0, first.1 || rest.1)

  -- normalizeHTMLFragment behind the parser: the body and the formatted body.
  fragment_of : Option Nodes → Option (Text × Text)
  fragment_of none = none
  fragment_of (some nodes) =
      let rendered = render_formatted_nodes nodes in
      some (
        normalize_plain_text (render_plain_nodes [] nodes),
        if rendered.1 then trim_space rendered.0 else [],
      )

  unfoldable pub normalize_html_fragment : (Text → Option Node) → Text → Option (Text × Text)
  unfolding fragment_of
  normalize_html_fragment parse value = elim (parse (codes "<div>" ++ value ++ codes "</div>")) [
    | none ↦ none
    | some doc ↦ fragment_of (find_wrapper_div doc)
  ]
