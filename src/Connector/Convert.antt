-- ===== src/Connector/Convert.antt =====
-- The Matrix events for a message of Teams: pkg/connector/convert.go.
pub mod Rendering
pub mod Media
pub mod Within
pub mod Shown
pub mod Parts
mod Examples
use matrix_teams.Prelude.{
  ℕ, ◌+◌, Bool, true, false, not, ◌&&◌, ◌||◌, Option, none, some, List, [], ◌∷◌, ◌++◌, ltb,
  if◌then◌else◌, is_nil, length, Text, codes, text_eq, trim_space,
}
use matrix_teams.Model.Message.{RemoteMessage}
use matrix_teams.Model.Attachments.{TeamsAttachment}
use matrix_teams.Connector.Convert.Rendering.{
  Rendered, render_inbound_message_with_gifs, strip_html_fallback, is_blank,
}
use matrix_teams.Connector.Convert.Media.{
  Matrix, MediaContent, reupload_inbound_attachments, has_drive_item,
}

-- The content of a text event; a formatted body that is not empty comes with the format HTML.
pub record TextContent : Type 0 where
  pub body : Text
  pub formatted_body : Text

-- The per-message profile of `perMessageExtra`: sender and display name.
abbrev pub Extra : Type 0
Extra = Option (Text × Text)

pub data Part : Type 0 where
  media : ℕ → MediaContent → Extra → Part
  text : TextContent → Extra → Part

pub per_message_extra : RemoteMessage → Extra
per_message_extra msg =
    if is_nil (trim_space msg.sender_id)
    then none
    else if is_nil (trim_space msg.sender_name)
    then none
    else some (trim_space msg.sender_id, trim_space msg.sender_name)

-- The plain body that goes with a formatted one: a single space gives way to the text of the HTML.
pub beside_html : Text → Text → Text
beside_html body formatted =
    if is_nil formatted
    then body
    else if text_eq body (codes " ")
    then (if is_blank (strip_html_fallback formatted)
        then codes " "
        else strip_html_fallback formatted)
    else body

-- convertTeamsMessageLegacy, on the attachments of the message
pub convert_teams_message_legacy : RemoteMessage → List TeamsAttachment → List Part
unfolding beside_html per_message_extra
convert_teams_message_legacy msg attachments =
    let rendered =
      render_inbound_message_with_gifs msg.body msg.formatted_body attachments msg.gifs in
    let formatted = trim_space rendered.formatted_body in
    let body =
      if is_nil (trim_space rendered.body) && is_nil formatted
      then codes " "
      else trim_space rendered.body in
    text (record { body = beside_html body formatted; formatted_body = formatted })
      (per_message_extra msg)
    ∷ []

-- buildCaptionPart
pub build_caption_part : Rendered → Extra → List Part
unfolding beside_html
build_caption_part rendered extra =
    let formatted = trim_space rendered.formatted_body in
    let body = if is_blank rendered.body then codes " " else trim_space rendered.body in
    if is_blank rendered.body && is_nil formatted
    then []
    else text (record { body = beside_html body formatted; formatted_body = formatted }) extra ∷ []

-- The media parts carry the number of their attachment and a copy of the extra fields.
pub media_parts : Extra → List (ℕ × MediaContent) → List Part
media_parts extra [] = []
media_parts extra ((i, m) ∷ ms) = media i m extra ∷ media_parts extra ms

abbrev pub some_part : List Part → Extra → List Part
some_part [] extra = text (record { body = codes " "; formatted_body = [] }) extra ∷ []
some_part (p ∷ ps) extra = p ∷ ps

-- convertTeamsMessage with a client and an intent, on the attachments of the message
pub convert_teams_message : Matrix → RemoteMessage → List TeamsAttachment → List Part
unfolding convert_teams_message_legacy build_caption_part per_message_extra media_parts
convert_teams_message matrix msg attachments =
    let (uploaded, fallback) = reupload_inbound_attachments matrix attachments in
    let extra = per_message_extra msg in
    let rendered = render_inbound_message_with_gifs msg.body msg.formatted_body fallback msg.gifs in
    if has_drive_item attachments
    then some_part (media_parts extra uploaded ++ build_caption_part rendered extra) extra
    else convert_teams_message_legacy msg attachments
