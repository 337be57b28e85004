-- ===== src/Auth/Cookies/Examples.antt =====
-- Runs of internal/teams/auth/cookies.go.
use matrix_teams.Prelude.{
  ℕ, ◌≡◌, refl, ◌&&◌, Bool, true, false, Option, none, some, List, [], ◌∷◌, if◌then◌else◌, is_nil,
  drop, ℤ, pos, Text, codes, has_prefix, lookup, one_of, text_eq, ltb_ℤ,
}
use matrix_teams.Auth.Cookies.{
  Cookie, StoredCookie, Url, Cookies, CookieStore, new_cookie_store, host_allowed, track_url,
  set_cookies, saved_file, load, cookies_at, origin_from_url, record_all, cookie_key, stored_of,
  has_expired,
}
use matrix_teams.Auth.Cookies.Lasting.{IsLasting}
use matrix_teams.Auth.Cookies.Saved.{
  IsOrigin, IsSavable, IsDistinctOrigins, is_allowed, load-saved_file,
}
use matrix_teams.Auth.Cookies.Stale.{removal, stale_cookie}

abbrev teams : Url
teams = record {
  scheme = codes "https";
  host = codes "teams.live.com";
  hostname = codes "teams.live.com";
}

abbrev other : Url
other = record {
  scheme = codes "https";
  host = codes "example.com";
  hostname = codes "example.com";
}

abbrev parse : Text → Option Url
parse origin =
    if has_prefix origin (codes "https://")
    then some (record { scheme = codes "https"; host = drop 8 origin; hostname = drop 8 origin })
    else none

abbrev cookie : Cookie
cookie = record {
  name = codes "sid";
  value = codes "v";
  domain = [];
  path = codes "/";
  expires = some (pos 9_000_000_000);
  max_age = pos 0;
  secure = true;
  http_only = true;
}

abbrev teams_origin : Text
teams_origin = codes "https://teams.live.com"

abbrev other_origin : Text
other_origin = codes "https://example.com"

abbrev sid : StoredCookie
sid = record {
  name = codes "sid";
  value = codes "v";
  domain = [];
  path = codes "/";
  expires_unix = pos 9;
  secure = true;
  http_only = true;
}

abbrev sids : Cookies
sids = (codes "sid||/", sid) ∷ []

abbrev store : CookieStore
store = record {
  by_origin = (teams_origin, sids) ∷ (other_origin, sids) ∷ [];
  origins = teams_origin ∷ other_origin ∷ [];
}

-- The store is what the operations make.
test_store :
    set_cookies
      (pos 0)
      other
      (cookie ∷ [])
      (set_cookies (pos 0) teams (cookie ∷ []) (track_url other (track_url teams new_cookie_store)))
    ≡ store
unfolding set_cookies matrix_teams.Prelude.insert track_url text_eq one_of origin_from_url
    has_expired lookup cookie_key stored_of matrix_teams.Prelude.join matrix_teams.Go.Time.unix
test_store = refl

teams-IsOrigin : IsOrigin parse teams_origin
unfolding has_prefix origin_from_url
teams-IsOrigin = record { url = teams; parsed = refl; same = refl; hosted = refl }

other-IsOrigin : IsOrigin parse (codes "https://example.com")
unfolding has_prefix origin_from_url
other-IsOrigin = record { url = other; parsed = refl; same = refl; hosted = refl }

sid-IsLasting : IsLasting (pos 0) (codes "sid||/", sid)
unfolding cookie_key matrix_teams.Prelude.join matrix_teams.Auth.Cookies.cookie_of has_expired
    matrix_teams.Go.Time.of_unix
sid-IsLasting = record { named = refl; rooted = refl; keyed = refl; unexpired = refl }

sids-IsSavable : IsSavable (pos 0) sids
unfolding lookup
sids-IsSavable = ((sid-IsLasting, tt), (refl, tt))

teams-IsSavable : IsSavable (pos 0) (cookies_at (lookup store.by_origin teams_origin))
unfolding lookup text_eq
teams-IsSavable = sids-IsSavable

other-IsSavable : IsSavable (pos 0) (cookies_at (lookup store.by_origin other_origin))
unfolding lookup text_eq
other-IsSavable = sids-IsSavable

store-IsDistinctOrigins : IsDistinctOrigins store.origins
unfolding one_of
store-IsDistinctOrigins = (refl, (refl, tt))

load-saved_file_example :
    cookies_at
      (lookup (load parse (pos 0) (saved_file parse store) new_cookie_store).by_origin teams_origin)
    ≡ (if one_of teams_origin store.origins && is_allowed parse teams_origin
        then cookies_at (lookup store.by_origin teams_origin)
        else [])
load-saved_file_example =
    load-saved_file parse (pos 0) store
      ((teams-IsOrigin, teams-IsSavable), ((other-IsOrigin, other-IsSavable), tt))
      store-IsDistinctOrigins teams_origin

-- The file has the cookies of the allowed host alone.
test_saved : (saved_file parse (store)) ≡ record { origin = teams_origin; cookies = sid ∷ [] } ∷ []
unfolding saved_file set_cookies track_url one_of origin_from_url has_prefix host_allowed
    matrix_teams.Prelude.to_lower matrix_teams.Auth.Cookies.snapshot lookup
    matrix_teams.Prelude.insert has_expired matrix_teams.Prelude.has_suffix
test_saved = refl

abbrev pathless : Cookie
pathless = record cookie { path = [] }

fresh : has_expired (pos 0) pathless.expires ≡ false
unfolding has_expired
fresh = refl

stale_cookie_example :
    (lookup (record_all (pos 0) [] (pathless ∷ removal pathless ∷ [])) (cookie_key pathless)
      ≡ some (stored_of pathless))
    × ((stored_of pathless).path ≡ codes "/")
stale_cookie_example = stale_cookie (pos 0) [] pathless refl refl refl fresh

test_subdomain : host_allowed (codes "API.Skype.com") ≡ true
unfolding host_allowed one_of matrix_teams.Prelude.to_lower matrix_teams.Prelude.has_suffix
test_subdomain = refl

test_lookalike : host_allowed (codes "notskype.com") ≡ false
unfolding host_allowed one_of matrix_teams.Prelude.to_lower matrix_teams.Prelude.has_suffix
test_lookalike = refl
