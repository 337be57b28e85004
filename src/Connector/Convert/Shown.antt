-- ===== src/Connector/Convert/Shown.antt =====
-- The attachments that stay links in a message (renderAttachmentHTML and its callers in
-- pkg/connector/convert.go) are in the HTML of its text part.
use matrix_teams.Prelude.{
  ℕ, ◌≡◌, refl, sym, ap, subst, false, ◌⊎◌, List, [], ◌∷◌, ◌++◌, append_assoc, is_nil, inl, inr,
  Bool-cases, Text, codes, All, is_space, trim_space,
}
use matrix_teams.Model.Message.{RemoteMessage}
use matrix_teams.Model.Attachments.{TeamsAttachment}
use matrix_teams.Connector.Convert.Rendering.{
  Rendered, attachment_item, attachment_items, render_attachment_html, is_blank,
  render_inbound_message_with_gifs,
}
use matrix_teams.Connector.Convert.Within.{
  Contains, Contains-left, Contains-right, join-Contains, append_filled, trim_space-Contains,
}
use matrix_teams.Connector.Convert.Media.{MediaContent}
use matrix_teams.Connector.Convert.{
  Part, media, text, Extra, media_parts, some_part, build_caption_part,
  convert_teams_message_legacy,
}

Contains-items :
    (t : Text) (attachments : List TeamsAttachment)
    → Contains t (attachment_items attachments)
    → All (λ a. Contains t (attachment_item a)) attachments
unfolding attachment_items
Contains-items t [] h = tt
Contains-items t (a ∷ rest) h = (
  Contains-left t (attachment_item a) (attachment_items rest) h,
  Contains-items t rest (Contains-right t (attachment_item a) (attachment_items rest) h),
)

-- The list of attachments between the tags of its first and last rune.
html_lem :
    (attachments : List TeamsAttachment)
    → render_attachment_html attachments
      ≡ b'<' ∷ ((codes "ul>" ++ (attachment_items attachments ++ codes "</ul")) ++ b'>' ∷ [])
unfolding render_attachment_html
html_lem attachments =
    ap (λ rest. codes "<ul>" ++ rest)
      (sym (append_assoc (attachment_items attachments) (codes "</ul") (b'>' ∷ [])))

-- The HTML of a message, less the white space at its ends, has an item for each attachment.
abbrev pub html_of : RemoteMessage → List TeamsAttachment → Text
html_of msg attachments =
    trim_space
      (render_inbound_message_with_gifs msg.body msg.formatted_body attachments
        msg.gifs).formatted_body

rendered-Contains :
    (msg : RemoteMessage) (a : TeamsAttachment) (rest : List TeamsAttachment)
    → Contains
        (render_inbound_message_with_gifs msg.body msg.formatted_body
          (a ∷ rest)
          msg.gifs).formatted_body
        (render_attachment_html (a ∷ rest))
unfolding render_inbound_message_with_gifs
rendered-Contains msg a rest =
    join-Contains (codes "<br><br>") (render_attachment_html (a ∷ rest)) _ _

trim_space-html :
    (t : Text) (attachments : List TeamsAttachment)
    → Contains t (render_attachment_html attachments)
    → Contains (trim_space t) (render_attachment_html attachments)
unfolding is_space
trim_space-html t attachments h = subst (Contains (trim_space t)) (sym (html_lem attachments)) (
    trim_space-Contains t b'<' b'>' (codes "ul>" ++ (attachment_items attachments ++ codes "</ul"))
      refl refl (subst (Contains t) (html_lem attachments) h))

html_of-Contains :
    (msg : RemoteMessage) (attachments : List TeamsAttachment)
    → All (λ a. Contains (html_of msg attachments) (attachment_item a)) attachments
unfolding render_attachment_html
html_of-Contains msg [] = tt
html_of-Contains msg (a ∷ rest) =
    let shown = trim_space-html _ (a ∷ rest) (rendered-Contains msg a rest) in
    Contains-items _ (a ∷ rest) (
      Contains-left _ (attachment_items (a ∷ rest)) (codes "</ul>")
        (Contains-right _ (codes "<ul>") (attachment_items (a ∷ rest) ++ codes "</ul>") shown))

-- A text part of the list has the attachment in its HTML.
abbrev pub IsShown : List Part → TeamsAttachment → Type 0
IsShown [] a = ⊥
IsShown (media i m extra ∷ ps) a = IsShown ps a
IsShown (text t extra ∷ ps) a = Contains t.formatted_body (attachment_item a) ⊎ IsShown ps a

All-map :
    {P Q : TeamsAttachment → Type 0} (as' : List TeamsAttachment)
    → ((a : TeamsAttachment) → P a → Q a)
    → All P as'
    → All Q as'
All-map [] f h = tt
All-map (a ∷ as') f (h, hs) = (f a h, All-map as' f hs)

media_parts-IsShown :
    (extra : Extra) (ms : List (ℕ × MediaContent)) (ps : List Part) (a : TeamsAttachment)
    → IsShown ps a
    → IsShown (media_parts extra ms ++ ps) a
unfolding media_parts
media_parts-IsShown extra [] ps a h = h
media_parts-IsShown extra ((i, m) ∷ ms) ps a h = media_parts-IsShown extra ms ps a h

some_part-IsShown :
    (ps : List Part) (extra : Extra) (a : TeamsAttachment)
    → IsShown ps a
    → IsShown (some_part ps extra) a
some_part-IsShown [] extra a h = absurd h
some_part-IsShown (p ∷ ps) extra a h = h

Contains-filled : (t x : Text) → is_nil x ≡ false → Contains t x → is_nil t ≡ false
Contains-filled t [] n h = absurd (cc)
Contains-filled t (c ∷ x) n (front, back, e) = rw e (append_filled front c (x ++ back))

attachment_item_filled : (a : TeamsAttachment) → is_nil (attachment_item a) ≡ false
unfolding attachment_item
attachment_item_filled a = elim (Bool-cases (is_blank a.share_url)) [
  | inl e ↦ rw e refl
  | inr e ↦ rw e refl
]

caption-IsShown :
    (rendered : Rendered) (extra : Extra) (a : TeamsAttachment)
    → Contains (trim_space rendered.formatted_body) (attachment_item a)
    → IsShown (build_caption_part rendered extra) a
unfolding build_caption_part
caption-IsShown rendered extra a h =
    let filled = Contains-filled _ _ (attachment_item_filled a) h in
    elim (Bool-cases (is_blank rendered.body)) [
      | inl e ↦ rw (e, filled) (inl h)
      | inr e ↦ rw e (inl h)
    ]

-- The caption of a message with the attachments shows each of them.
pub caption_shows :
    (msg : RemoteMessage) (attachments : List TeamsAttachment) (uploaded : List (ℕ × MediaContent))
    (extra : Extra)
    → let rendered =
        render_inbound_message_with_gifs msg.body msg.formatted_body attachments msg.gifs in
      All
        (IsShown
          (some_part (media_parts extra uploaded ++ build_caption_part rendered extra) extra))
        attachments
caption_shows msg attachments uploaded extra =
    let rendered =
      render_inbound_message_with_gifs msg.body msg.formatted_body attachments msg.gifs in
    All-map attachments
      (λ a h.
        some_part-IsShown (media_parts extra uploaded ++ build_caption_part rendered extra) extra a
          (media_parts-IsShown extra uploaded _ a (caption-IsShown rendered extra a h)))
      (html_of-Contains msg attachments)

-- So does the single part of a message without files.
pub legacy_shows :
    (msg : RemoteMessage) (attachments : List TeamsAttachment)
    → All (IsShown (convert_teams_message_legacy msg attachments)) attachments
unfolding convert_teams_message_legacy
legacy_shows msg attachments = All-map attachments (λ a h. inl h) (html_of-Contains msg attachments)
