-- ===== src/Model/Markup/Gifs.antt =====
-- The GIFs of a message: internal/teams/model/gif.go. A map of seen addresses and the list of GIFs
-- grow together.
pub mod Distinct
use matrix_teams.Prelude.{
  Bool, true, false, not, ◌&&◌, ◌||◌, Option, none, some, List, [], ◌∷◌, ◌++◌, if◌then◌else◌,
  is_nil, is_some, Text, codes, one_of, to_lower, trim_space, contains, equal_fold,
}
use matrix_teams.Model.Message.{TeamsGif}
use matrix_teams.Model.Markup.{
  Node, Nodes, Attribute, text, element, other, nil, cons, find_attribute,
}
use matrix_teams.Model.Markup.Formatted.{with_scheme}

abbrev pub web_schemes : List Text
web_schemes = codes "http" ∷ codes "https" ∷ []

abbrev pub text_or_empty : Option Text → Text
text_or_empty none = []
text_or_empty (some t) = t

-- getAttr
pub get_attr : Text → List Attribute → Text
get_attr key attributes = text_or_empty (find_attribute key attributes)

-- firstNonEmpty
pub first_non_empty : List Text → Text
first_non_empty [] = []
first_non_empty (t ∷ ts) =
    let rest = first_non_empty ts in if is_nil (trim_space t) then rest else trim_space t

unfoldable pub has_giphy_item_type : List Attribute → Bool
unfolding get_attr
has_giphy_item_type attributes =
    contains (to_lower (trim_space (get_attr (codes "itemtype") attributes)))
      (codes "schema.skype.com/giphy")

abbrev pub urls : List TeamsGif → List Text
urls [] = []
urls (g ∷ gs) = g.url ∷ urls gs

module _ (scheme_of : Text → Option Text) where
  -- isSafeHTTPURL
  pub is_safe_http_url : Text → Bool
  is_safe_http_url value =
      is_some (with_scheme web_schemes (trim_space value) (scheme_of (trim_space value)))

  -- appendSingleGIF: the addresses seen are those of the list.
  pub append_single_gif : List Attribute → Text → List TeamsGif → List TeamsGif
  unfolding is_safe_http_url get_attr first_non_empty
  append_single_gif attributes fallback_title gifs =
      let src = trim_space (get_attr (codes "src") attributes) in
      let title = first_non_empty (
        trim_space (get_attr (codes "alt") attributes)
        ∷ trim_space fallback_title
        ∷ codes "GIF"
        ∷ []) in
      if not (is_safe_http_url src)
      then gifs
      else if one_of src (urls gifs)
      then gifs
      else gifs ++ record { title = title; url = src } ∷ []

  -- appendGIFsFromImages, on the children of a node
  unfoldable mutual
    unfolding append_single_gif

    pub append_from_node : Text → Node → List TeamsGif → List TeamsGif
    append_from_node fallback (text t) gifs = gifs
    append_from_node fallback (element name attributes children) gifs =
        append_gifs_from_images fallback children (
          if equal_fold name (codes "img")
          then append_single_gif attributes fallback gifs
          else gifs)
    append_from_node fallback (other children) gifs = append_gifs_from_images fallback children gifs

    pub append_gifs_from_images : Text → Nodes → List TeamsGif → List TeamsGif
    append_gifs_from_images fallback nil gifs = gifs
    append_gifs_from_images fallback (cons n ns) gifs =
        append_gifs_from_images fallback ns (append_from_node fallback n gifs)

  -- the switch on the tag in collectGIFs
  pub visit_element : Text → List Attribute → Nodes → List TeamsGif → List TeamsGif
  unfolding append_single_gif append_gifs_from_images
  visit_element tag attributes children gifs =
      let title =
        first_non_empty
          (get_attr (codes "title") attributes ∷ get_attr (codes "aria-label") attributes ∷ []) in
      if not (has_giphy_item_type attributes)
      then gifs
      else if one_of tag (codes "readonly" ∷ [])
      then append_gifs_from_images title children gifs
      else if one_of tag (codes "img" ∷ [])
      then append_single_gif attributes [] gifs
      else gifs

  unfoldable mutual
    unfolding visit_element

    pub collect_gifs : Node → List TeamsGif → List TeamsGif
    collect_gifs (text t) gifs = gifs
    collect_gifs (element name attributes children) gifs =
        collect_from_children children (visit_element (to_lower name) attributes children gifs)
    collect_gifs (other children) gifs = collect_from_children children gifs

    pub collect_from_children : Nodes → List TeamsGif → List TeamsGif
    collect_from_children nil gifs = gifs
    collect_from_children (cons n ns) gifs = collect_from_children ns (collect_gifs n gifs)
