-- ===== src/Connector/Convert/Rendering.antt =====
-- The texts of pkg/connector/convert.go: body and HTML with the lines for attachments and GIFs.
use matrix_teams.Prelude.{
  Bool, not, ◌&&◌, List, [], ◌∷◌, ◌++◌, map, if◌then◌else◌, is_nil, Text, codes, trim_space, join,
  replace_all,
}
use matrix_teams.Go.Html.{escape_string}
use matrix_teams.Model.Message.{TeamsGif}
use matrix_teams.Model.Attachments.{TeamsAttachment}

-- renderedInboundMessage, whose extra fields nothing sets
pub record Rendered : Type 0 where
  pub body : Text
  pub formatted_body : Text

unfoldable pub is_blank : Text → Bool
is_blank t = is_nil (trim_space t)

-- the lines of renderAttachmentBody and renderGIFBody
pub attachment_line : TeamsAttachment → Text
unfolding is_blank
attachment_line a =
    if is_blank a.share_url
    then codes "Attachment: " ++ a.filename
    else codes "Attachment: " ++ (a.filename ++ (codes " - " ++ a.share_url))

pub render_attachment_body : List TeamsAttachment → Text
unfolding attachment_line
render_attachment_body attachments = join (codes "\n") (map attachment_line attachments)

pub gif_line : TeamsGif → Text
gif_line g = codes "GIF: " ++ (g.title ++ (codes " - " ++ g.url))

pub render_gif_body : List TeamsGif → Text
unfolding gif_line
render_gif_body gifs = join (codes "\n") (map gif_line gifs)

unfoldable pub attachment_item : TeamsAttachment → Text
unfolding is_blank
attachment_item a =
    if is_blank a.share_url
    then codes "<li>Attachment: " ++ (escape_string a.filename ++ codes "</li>")
    else codes "<li>Attachment: <a href=\""
      ++ (escape_string a.share_url
          ++ (codes "\">" ++ (escape_string a.filename ++ codes "</a></li>")))

unfoldable pub attachment_items : List TeamsAttachment → Text
attachment_items [] = []
attachment_items (a ∷ as') = attachment_item a ++ attachment_items as'

unfoldable pub render_attachment_html : List TeamsAttachment → Text
unfolding attachment_item attachment_items
render_attachment_html attachments = codes "<ul>" ++ (attachment_items attachments ++ codes "</ul>")

pub gif_item : TeamsGif → Text
gif_item g =
    codes "<li>GIF: <a href=\""
    ++ (escape_string g.url ++ (codes "\">" ++ (escape_string g.title ++ codes "</a></li>")))

pub gif_items : List TeamsGif → Text
gif_items [] = []
gif_items (g ∷ gs) = gif_item g ++ gif_items gs

pub render_gif_html : List TeamsGif → Text
unfolding gif_item gif_items
render_gif_html gifs = codes "<ul>" ++ (gif_items gifs ++ codes "</ul>")

pub plain_text_to_html : Text → Text
plain_text_to_html text = replace_all (escape_string text) (codes "\n") (codes "<br>")

unfoldable pub strip_html_fallback : Text → Text
strip_html_fallback html =
    replace_all
      (replace_all
        (replace_all
          (replace_all (replace_all html (codes "<br>") (codes "\n")) (codes "<br/>") (codes "\n"))
          (codes "<br />") (codes "\n"))
        (codes "<p>") [])
      (codes "</p>") []

abbrev pub section : Bool → Text → List Text
section present t = if present then t ∷ [] else []

-- renderInboundMessageWithGIFs
unfoldable pub render_inbound_message_with_gifs :
    Text → Text → List TeamsAttachment → List TeamsGif → Rendered
unfolding render_attachment_body render_gif_body render_attachment_html render_gif_html
    plain_text_to_html is_blank
render_inbound_message_with_gifs body formatted_body attachments gifs =
    let plain = trim_space body in
    let formatted = trim_space formatted_body in
    let base_html =
      if is_nil formatted && not (is_blank body) then plain_text_to_html body else formatted in
    let with_files = not (is_nil attachments) in
    let with_gifs = not (is_nil gifs) in
    if not with_files && not with_gifs
    then record { body = plain; formatted_body = formatted }
    else record {
      body = join (codes "\n\n") (
          section (not (is_blank plain)) plain
          ++ (section with_files (render_attachment_body attachments)
              ++ section with_gifs (render_gif_body gifs)));
      formatted_body = join (codes "<br><br>") (
          section (not (is_nil base_html)) base_html
          ++ (section with_files (render_attachment_html attachments)
              ++ section with_gifs (render_gif_html gifs)));
    }
