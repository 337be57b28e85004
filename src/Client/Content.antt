-- ===== src/Client/Content.antt =====
-- The HTML of an outgoing message: formatHTMLContent and formatGIFContent of
-- internal/teams/client/messages.go, formatCaptionHTML of internal/bridge/send_attachment.go.
pub mod OnePass
mod Examples
use matrix_teams.Prelude.{
  ℕ, zero, suc, ◌+◌, ◌-◌, ◌≡◌, refl, ◌∙◌, ap, sym, Bool, true, false, ◌&&◌, ◌||◌, List, [], ◌∷◌,
  ◌++◌, append_assoc, length, ◌==◌, if◌then◌else◌, is_nil, arith, Text, codes, trim_space,
  replace_all, replace_from, has_prefix, Bool-cases, inl, inr,
}
use matrix_teams.Go.Html.{escape_string, escape_rune}

-- strings.ReplaceAll(text, "\r\n", "\n"), and then "\r" by "\n"
pub normalized_breaks : Text → Text
normalized_breaks text = replace_all (replace_all text (13 ∷ 10 ∷ []) (10 ∷ [])) (13 ∷ []) (10 ∷ [])

-- formatHTMLContent, and formatCaptionHTML, which is the same code
unfoldable pub format_html_content : Text → Text
unfolding normalized_breaks
format_html_content text =
    let escaped = replace_all (escape_string (normalized_breaks text)) (10 ∷ []) (codes "<br>") in
    codes "<p>" ++ (escaped ++ codes "</p>")

-- formatGIFContent
unfoldable pub format_gif_content : Text → Text → Text
format_gif_content gif_url title =
    let url = trim_space gif_url in
    let label = trim_space title in
    let full =
      escape_string ((if is_nil label then codes "GIF" else label) ++ codes " (GIF Image)") in
    codes "<p>&nbsp;</p><readonly title=\""
    ++ full
    ++ codes "\" itemtype=\"http://schema.skype.com/Giphy\" contenteditable=\"false\" aria-label=\""
    ++ full
    ++ codes "\"><img style=\"height:auto;margin-top:4px;max-width:100%;\" alt=\""
    ++ full
    ++ codes "\" height=\"250\" width=\"350\" src=\""
    ++ escape_string url
    ++ codes "\" itemtype=\"http://schema.skype.com/Giphy\"></readonly><p>&nbsp;</p>"
