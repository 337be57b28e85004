-- ===== src/Model/Markup/Plain.antt =====
-- The plain text of a fragment: `renderPlainNode` and `normalizePlainText` of
-- internal/teams/model/message_html.go. The builder is the text so far.
use matrix_teams.Prelude.{
  ℕ, [], ◌∷◌, ◌++◌, ltb, ◌==◌, if◌then◌else◌, is_nil, ◌||◌, ◌+◌, Text, codes, one_of, to_lower,
  has_suffix, replace_all, trim_space,
}
use matrix_teams.Model.Markup.{
  Node, Nodes, text, element, other, nil, cons, block_tags, is_unsafe_tag,
}

-- appendPlainNewline
pub append_plain_newline : Text → Text
append_plain_newline out =
    if is_nil out || has_suffix out (codes "\n") then out else out ++ codes "\n"

unfoldable mutual
  unfolding append_plain_newline

  pub render_plain_node : Text → Node → Text
  render_plain_node out (text t) = out ++ t
  render_plain_node out (element name attributes children) =
      let tag = to_lower name in
      let inline = render_plain_nodes out children in
      let block = append_plain_newline (render_plain_nodes (append_plain_newline out) children) in
      if is_unsafe_tag tag
      then out
      else if one_of tag (codes "br" ∷ [])
      then append_plain_newline out
      else if one_of tag block_tags
      then block
      else inline
  render_plain_node out (other children) = render_plain_nodes out children

  pub render_plain_nodes : Text → Nodes → Text
  render_plain_nodes out nil = out
  render_plain_nodes out (cons n ns) = render_plain_nodes (render_plain_node out n) ns

-- The pattern `\n{3}` replaced by two newlines; the number counts the newlines just passed.
pub collapse_newlines : ℕ → Text → Text
collapse_newlines n [] = []
collapse_newlines n (c ∷ s) =
    let dropped = collapse_newlines n s in
    let kept = c ∷ collapse_newlines (n + 1) s in
    let other = c ∷ collapse_newlines 0 s in
    if c == b'\n' then (if ltb n 2 then kept else dropped) else other

-- normalizePlainText
unfoldable pub normalize_plain_text : Text → Text
unfolding collapse_newlines
normalize_plain_text value =
    let unix =
      replace_all (replace_all value (codes "\r\n") (codes "\n")) (codes "\r") (codes "\n") in
    trim_space (collapse_newlines 0 unix)
