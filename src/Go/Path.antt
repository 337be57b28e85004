-- ===== src/Go/Path.antt =====
-- filepath.Ext and strings.TrimRight(s, "/") of the standard library.
use matrix_teams.Prelude.{◌&&◌, [], ◌∷◌, ◌==◌, if◌then◌else◌, is_nil, Text}

-- From the last dot of the last element of the path.
unfoldable pub extension_from : Text → Text → Text
extension_from found [] = found
extension_from found (c ∷ s) =
    extension_from (if c == b'/' then [] else if c == b'.' then c ∷ s else found) s

unfoldable pub extension : Text → Text
unfolding extension_from
extension path = extension_from [] path

unfoldable pub trim_slashes : Text → Text
trim_slashes [] = []
trim_slashes (c ∷ s) =
    let rest = trim_slashes s in if is_nil rest && c == b'/' then [] else c ∷ rest
