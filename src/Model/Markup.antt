-- ===== src/Model/Markup.antt =====
-- The tree of a parsed HTML fragment, and what internal/teams/model/message_html.go and gif.go read
-- off it. The parser, golang.org/x/net/html, and net/url are parameters where they are used.
pub mod Plain
pub mod Formatted
pub mod Gifs
mod Examples
use matrix_teams.Prelude.{
  Bool, true, false, ◌||◌, Option, none, some, List, [], ◌∷◌, if◌then◌else◌, Text, codes, one_of,
  to_lower, equal_fold,
}

pub record Attribute : Type 0 where
  pub key : Text
  pub val : Text

-- `other` is a node that is neither text nor an element, such as the document.
mutual
  pub data Node : Type 0 where
    text : Text → Node
    element : Text → List Attribute → Nodes → Node
    other : Nodes → Node

  pub data Nodes : Type 0 where
    nil : Nodes
    cons : Node → Nodes → Nodes

abbrev pub allowed_formatted_tags : List Text
allowed_formatted_tags =
    codes "a"
    ∷ codes "b"
    ∷ codes "blockquote"
    ∷ codes "br"
    ∷ codes "code"
    ∷ codes "em"
    ∷ codes "i"
    ∷ codes "li"
    ∷ codes "ol"
    ∷ codes "p"
    ∷ codes "pre"
    ∷ codes "s"
    ∷ codes "strong"
    ∷ codes "u"
    ∷ codes "ul"
    ∷ []

abbrev pub block_tags : List Text
block_tags =
    codes "blockquote"
    ∷ codes "div"
    ∷ codes "h1"
    ∷ codes "h2"
    ∷ codes "h3"
    ∷ codes "h4"
    ∷ codes "h5"
    ∷ codes "h6"
    ∷ codes "li"
    ∷ codes "ol"
    ∷ codes "p"
    ∷ codes "pre"
    ∷ codes "section"
    ∷ codes "ul"
    ∷ []

-- isUnsafeTag
pub is_unsafe_tag : Text → Bool
is_unsafe_tag tag = one_of tag (
    codes "script"
    ∷ codes "style"
    ∷ codes "iframe"
    ∷ codes "object"
    ∷ codes "embed"
    ∷ codes "meta"
    ∷ codes "link"
    ∷ codes "head"
    ∷ [])

-- The value of the first attribute with the key, in any case.
unfoldable pub find_attribute : Text → List Attribute → Option Text
unfolding equal_fold
find_attribute key [] = none
find_attribute key (a ∷ rest) =
    let later = find_attribute key rest in if equal_fold a.key key then some a.val else later

-- findWrapperDiv: the children of the first div, depth first.
unfoldable mutual
  pub find_wrapper_div : Node → Option Nodes
  find_wrapper_div (text t) = none
  find_wrapper_div (element tag attributes children) =
      let deeper = find_in_children children in
      if equal_fold tag (codes "div") then some children else deeper
  find_wrapper_div (other children) = find_in_children children

  pub find_in_children : Nodes → Option Nodes
  find_in_children nil = none
  find_in_children (cons n ns) =
      let later = find_in_children ns in
      elim (find_wrapper_div n) [ some found ↦ some found | none ↦ later ]
