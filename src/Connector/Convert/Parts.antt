-- ===== src/Connector/Convert/Parts.antt =====
-- No attachment and no message is lost in the conversion of pkg/connector/convert.go.
use matrix_teams.Prelude.{
  ℕ, suc, ◌+◌, ◌≡◌, ◌≢◌, refl, ◌&&◌, Option, none, some, List, [], ◌∷◌, ◌++◌, if◌then◌else◌, is_nil,
  length, All, inl, inr, arith, Bool-cases, trim_space,
}
use matrix_teams.Model.Message.{RemoteMessage}
use matrix_teams.Model.Attachments.{TeamsAttachment}
use matrix_teams.Connector.Convert.Rendering.{Rendered, render_inbound_message_with_gifs, is_blank}
use matrix_teams.Connector.Convert.Media.{
  Matrix, MediaContent, reupload, sort_out, reupload_from, reupload_inbound_attachments,
  has_drive_item,
}
use matrix_teams.Connector.Convert.Shown.{IsShown, caption_shows, legacy_shows}
use matrix_teams.Connector.Convert.{
  Part, media, text, Extra, per_message_extra, media_parts, some_part, build_caption_part,
  convert_teams_message_legacy, convert_teams_message,
}

unfoldable pub count_media : List Part → ℕ
count_media [] = 0
count_media (media i m extra ∷ ps) = suc (count_media ps)
count_media (text t extra ∷ ps) = count_media ps

-- The attachments that the message shows as lines and links.
abbrev pub linked : Matrix → List TeamsAttachment → List TeamsAttachment
linked matrix attachments =
    if has_drive_item attachments
    then (reupload_inbound_attachments matrix attachments).1
    else attachments

sort_out_count :
    (i n : ℕ) (a : TeamsAttachment) (m : Option MediaContent)
    (out : List (ℕ × MediaContent) × List TeamsAttachment)
    → length out.0 + length out.1 ≡ n
    → length (sort_out i a m out).0 + length (sort_out i a m out).1 ≡ suc n
unfolding sort_out
sort_out_count i n a none (parts, fallback) h = omega arith
sort_out_count i n a (some m) (parts, fallback) h = omega arith

reupload_from_count :
    (matrix : Matrix) (i : ℕ) (attachments : List TeamsAttachment)
    → length (reupload_from matrix i attachments).0 + length (reupload_from matrix i attachments).1
      ≡ length attachments
unfolding reupload_from
reupload_from_count matrix i [] = refl
reupload_from_count matrix i (a ∷ rest) =
    sort_out_count i (length rest) a (reupload matrix a) (reupload_from matrix (i + 1) rest)
      (reupload_from_count matrix (i + 1) rest)

reupload_count :
    (matrix : Matrix) (attachments : List TeamsAttachment)
    → length (reupload_inbound_attachments matrix attachments).0
        + length (reupload_inbound_attachments matrix attachments).1
      ≡ length attachments
unfolding reupload_inbound_attachments
reupload_count matrix attachments = elim (Bool-cases matrix.has_graph_token) [
  | inl e ↦ rw e (reupload_from_count matrix 0 attachments)
  | inr e ↦ rw e (omega arith)
]

count_media-append : (ps qs : List Part) → count_media (ps ++ qs) ≡ count_media ps + count_media qs
unfolding count_media
count_media-append [] qs = omega arith
count_media-append (media i m extra ∷ ps) qs = omega (arith, count_media-append ps qs)
count_media-append (text t extra ∷ ps) qs = count_media-append ps qs

count_media-media_parts :
    (extra : Extra) (ms : List (ℕ × MediaContent)) → count_media (media_parts extra ms) ≡ length ms
unfolding count_media media_parts
count_media-media_parts extra [] = refl
count_media-media_parts extra ((i, m) ∷ ms) = omega (arith, count_media-media_parts extra ms)

count_media-build_caption_part :
    (rendered : Rendered) (extra : Extra) → count_media (build_caption_part rendered extra) ≡ 0
unfolding count_media build_caption_part
count_media-build_caption_part rendered extra =
    elim (Bool-cases (is_blank rendered.body && is_nil (trim_space rendered.formatted_body))) [
      | inl e ↦ rw e refl
      | inr e ↦ rw e refl
    ]

some_part_lem :
    (ps : List Part) (extra : Extra)
    → (some_part ps extra ≢ []) × (count_media (some_part ps extra) ≡ count_media ps)
unfolding count_media
some_part_lem [] extra = (cc, refl)
some_part_lem (p ∷ ps) extra = (cc, refl)

-- However downloads and uploads fare, a message becomes at least one part. Of its attachments, as many
-- become media parts as are not left for links, and each that is left is an item of the HTML of a text
-- part.
pub convert_teams_message-keeps :
    (matrix : Matrix) (msg : RemoteMessage) (attachments : List TeamsAttachment)
    → (convert_teams_message matrix msg attachments ≢ [])
      × (count_media (convert_teams_message matrix msg attachments)
            + length (linked matrix attachments)
          ≡ length attachments)
      × All (IsShown (convert_teams_message matrix msg attachments)) (linked matrix attachments)
unfolding convert_teams_message
convert_teams_message-keeps matrix msg attachments =
    let extra = per_message_extra msg in
    let (uploaded, fallback) = reupload_inbound_attachments matrix attachments in
    let rendered = render_inbound_message_with_gifs msg.body msg.formatted_body fallback msg.gifs in
    let caption = build_caption_part rendered extra in
    elim (Bool-cases (has_drive_item attachments)) [
      | inl e ↦ rw e (
          let (ne, count) = some_part_lem (media_parts extra uploaded ++ caption) extra in
          (
            ne,
            omega (
              arith,
              count,
              count_media-append (media_parts extra uploaded) caption,
              count_media-media_parts extra uploaded,
              count_media-build_caption_part rendered extra,
              reupload_count matrix attachments,
            ),
            caption_shows msg fallback uploaded extra,
          ))
      | inr e ↦ rw e (
          let shown = legacy_shows msg attachments in
          unfold convert_teams_message_legacy count_media in (cc, omega arith, shown))
    ]
