-- ===== src/Model/Markup/Examples.antt =====
-- A fragment with a script, an unsafe and a safe link.
use matrix_teams.Prelude.{
  ◌≡◌, refl, true, false, Option, none, some, List, [], ◌∷◌, ◌++◌, Text, codes, if◌then◌else◌,
  has_prefix, All, equal_fold, one_of, text_eq, to_lower, trim_space, contains,
}
use matrix_teams.Model.Markup.{Node, Nodes, Attribute, text, element, other, nil, cons}
use matrix_teams.Model.Markup.Formatted.{normalize_html_fragment}
use matrix_teams.Model.Markup.Formatted.Safe.{IsFormatted, normalize_html_fragment-IsFormatted}
use matrix_teams.Model.Markup.Gifs.{collect_gifs}
use matrix_teams.Model.Markup.Gifs.Distinct.{IsGallery, collect_gifs-IsGallery}

abbrev scheme_of : Text → Option Text
scheme_of t =
    if has_prefix t (codes "https:") then some (codes "https") else some (codes "javascript")

abbrev link : Text → Node → Node
link address inner =
    element (codes "a") (record { key = codes "HREF"; val = address } ∷ []) (cons inner nil)

abbrev message : Nodes
message = cons (element (codes "script") [] (cons (text (codes "x()")) nil)) (
    cons (link (codes "javascript:x") (text (codes "1 < 2")))
      (cons (link (codes "https://h") (element (codes "B") [] (cons (text (codes "ok")) nil))) nil))

abbrev gif : Text → Node
gif address =
    element (codes "img")
      (record { key = codes "src"; val = address }
        ∷ record { key = codes "itemtype"; val = codes "http://schema.skype.com/Giphy" }
        ∷ [])
      nil

abbrev doc : Node
doc = other (cons (element (codes "div") [] message) nil)

abbrev gallery : Node
gallery = other (
    cons (gif (codes "https://g"))
      (cons (gif (codes "https://g")) (cons (gif (codes "file:x")) nil)))

test_fragment :
    normalize_html_fragment scheme_of (λ value. some doc) []
    ≡ some (codes "1 < 2ok", codes "<a>1 &lt; 2</a><a href=\"https://h\"><b>ok</b></a>")
unfolding normalize_html_fragment matrix_teams.Model.Markup.find_wrapper_div
    matrix_teams.Prelude.equal_fold matrix_teams.Model.Markup.Plain.normalize_plain_text
    matrix_teams.Model.Markup.Formatted.render_formatted_nodes matrix_teams.Prelude.trim_space
    matrix_teams.Model.Markup.is_unsafe_tag matrix_teams.Prelude.replace_all
    matrix_teams.Model.Markup.Plain.render_plain_nodes matrix_teams.Prelude.one_of
    matrix_teams.Model.Markup.find_attribute matrix_teams.Go.Html.escape_string
test_fragment = refl

test_gallery :
    collect_gifs scheme_of gallery [] ≡ record { title = codes "GIF"; url = codes "https://g" } ∷ []
unfolding collect_gifs equal_fold one_of text_eq to_lower trim_space contains has_prefix
    matrix_teams.Model.Markup.Gifs.has_giphy_item_type matrix_teams.Model.Markup.find_attribute
    matrix_teams.Model.Markup.Formatted.with_scheme
test_gallery = refl

normalize_html_fragment-IsFormatted_example :
    IsFormatted scheme_of (codes "<a>1 &lt; 2</a><a href=\"https://h\"><b>ok</b></a>")
normalize_html_fragment-IsFormatted_example =
    normalize_html_fragment-IsFormatted scheme_of (λ value. some doc) [] (codes "1 < 2ok")
      (codes "<a>1 &lt; 2</a><a href=\"https://h\"><b>ok</b></a>") test_fragment

collect_gifs-IsGallery_example : IsGallery scheme_of (collect_gifs scheme_of gallery [])
collect_gifs-IsGallery_example = collect_gifs-IsGallery scheme_of gallery
