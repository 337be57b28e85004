-- ===== src/Client/Content/Examples.antt =====
-- Contents of messages (internal/teams/client/messages.go).
use matrix_teams.Prelude.{◌≡◌, refl, false, List, [], ◌∷◌, ◌++◌, Text, codes}
use matrix_teams.Client.Content.{format_html_content}
use matrix_teams.Client.Content.OnePass.{one_pass, format_html_content_lem}

abbrev text : Text
text = codes "a<b" ++ (13 ∷ 10 ∷ 13 ∷ codes "c")

test_format : format_html_content text ≡ codes "<p>a&lt;b<br><br>c</p>"
unfolding format_html_content matrix_teams.Prelude.replace_all matrix_teams.Go.Html.escape_string
test_format = refl

format_html_content_lem_example :
    format_html_content text ≡ codes "<p>" ++ (one_pass false text ++ codes "</p>")
format_html_content_lem_example = format_html_content_lem text
