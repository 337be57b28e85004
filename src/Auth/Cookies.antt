-- ===== src/Auth/Cookies.antt =====
-- internal/teams/auth/cookies.go: the record of the cookies that the login hosts set, and the file in
-- which it outlives the bridge. The jar itself is that of net/http, which is given the same cookies
-- and which nothing here reads. A file is its decoded JSON.
pub mod Lasting
pub mod Saved
pub mod Stale
mod Examples
use matrix_teams.Prelude.{
  ℕ, Bool, true, false, ◌||◌, not, Option, none, some, List, [], ◌∷◌, ◌++◌, ◌==◌, if◌then◌else◌,
  is_nil, ℤ, pos, negsuc, ltb_ℤ, Text, codes, text_eq, one_of, to_lower, has_suffix, join, lookup,
  insert, erase,
}
use matrix_teams.Go.Time.{of_unix, unix}
use matrix_teams.Auth.Tokens.{is_unset}

-- http.Cookie; `none` is the zero time.
pub record Cookie : Type 0 where
  pub name : Text
  pub value : Text
  pub domain : Text
  pub path : Text
  pub expires : Option ℤ
  pub max_age : ℤ
  pub secure : Bool
  pub http_only : Bool

pub record StoredCookie : Type 0 where
  pub name : Text
  pub value : Text
  pub domain : Text
  pub path : Text
  pub expires_unix : ℤ
  pub secure : Bool
  pub http_only : Bool

pub record StoredCookieOrigin : Type 0 where
  pub origin : Text
  pub cookies : List StoredCookie

-- url.URL, with its method Hostname
pub record Url : Type 0 where
  pub scheme : Text
  pub host : Text
  pub hostname : Text

abbrev pub Cookies : Type 0
Cookies = List (Text × StoredCookie)

-- CookieStore with its recorder
pub record CookieStore : Type 0 where
  pub by_origin : List (Text × Cookies)
  pub origins : List Text

-- NewCookieStore
abbrev pub new_cookie_store : CookieStore
new_cookie_store = record { by_origin = []; origins = [] }

-- hostAllowed
pub host_allowed : Text → Bool
host_allowed host =
    let lowered = to_lower host in
    if is_nil host
    then false
    else one_of lowered
        (codes "login.live.com" ∷ codes "login.microsoftonline.com" ∷ codes "teams.live.com" ∷ [])
      || has_suffix lowered (codes ".skype.com")
      || has_suffix lowered (codes ".teams.live.com")

-- originFromURL
pub origin_from_url : Url → Text
origin_from_url u = (if is_nil u.scheme then codes "https" else u.scheme) ++ codes "://" ++ u.host

-- cookieKey
pub cookie_key : Cookie → Text
cookie_key c = join (codes "|") (c.name ∷ c.domain ∷ c.path ∷ [])

pub has_expired : ℤ → Option ℤ → Bool
has_expired now none = false
has_expired now (some at) = ltb_ℤ at now

unix_of : Option ℤ → ℤ
unix_of none = pos 0
unix_of (some at) = unix at

slash_or : Text → Text
slash_or path = if is_nil path then codes "/" else path

pub stored_of : Cookie → StoredCookie
unfolding unix_of slash_or
stored_of c = record {
  name = c.name;
  value = c.value;
  domain = c.domain;
  path = slash_or c.path;
  expires_unix = unix_of c.expires;
  secure = c.secure;
  http_only = c.http_only;
}

-- one turn of the loop of record
pub record_cookie : ℤ → Cookies → Cookie → Cookies
record_cookie now m c =
    if is_nil c.name
    then m
    else if ltb_ℤ c.max_age (pos 0) || has_expired now c.expires
    then erase m (cookie_key c)
    else insert m (cookie_key c) (stored_of c)

pub record_all : ℤ → Cookies → List Cookie → Cookies
unfolding record_cookie
record_all now m [] = m
record_all now m (c ∷ cookies) = record_all now (record_cookie now m c) cookies

abbrev pub cookies_at : Option Cookies → Cookies
cookies_at none = []
cookies_at (some m) = m

-- SetCookies of the recorder, which is record
pub set_cookies : ℤ → Url → List Cookie → CookieStore → CookieStore
unfolding record_all
set_cookies now u cookies s =
    let origin = origin_from_url u in
    if is_nil u.host then s else record s {
      by_origin =
          insert s.by_origin origin
            (record_all now (cookies_at (lookup s.by_origin origin)) cookies);
    }

-- s.origins[origin] = struct{}{}
add_origin : Text → List Text → List Text
add_origin origin origins = if one_of origin origins then origins else origins ++ (origin ∷ [])

-- TrackURL
pub track_url : Url → CookieStore → CookieStore
unfolding add_origin
track_url u s =
    if is_nil u.host then s else record s { origins = add_origin (origin_from_url u) s.origins }

-- snapshot
pub values : Cookies → List StoredCookie
values [] = []
values ((k, c) ∷ m) = c ∷ values m

pub snapshot : Text → CookieStore → List StoredCookie
unfolding values
snapshot origin s = values (cookies_at (lookup s.by_origin origin))

-- a cookie of the file
pub cookie_of : StoredCookie → Cookie
unfolding slash_or
cookie_of c = record {
  name = c.name;
  value = c.value;
  domain = c.domain;
  path = slash_or c.path;
  expires = if is_unset c.expires_unix then none else some (of_unix c.expires_unix);
  max_age = pos 0;
  secure = c.secure;
  http_only = c.http_only;
}

pub cookies_of : List StoredCookie → List Cookie
unfolding cookie_of
cookies_of [] = []
cookies_of (c ∷ cookies) = cookie_of c ∷ cookies_of cookies

module _ (parse : Text → Option Url) where
  -- one turn of the loop of Save
  saved_entry : Url → Text → List StoredCookie → List StoredCookieOrigin
  saved_entry u origin cookies =
      if is_nil u.host
      then []
      else if not (host_allowed u.hostname)
      then []
      else if is_nil cookies
      then []
      else record { origin = origin; cookies = cookies } ∷ []

  parsed_entry : Text → Option Url → List StoredCookie → List StoredCookieOrigin
  unfolding saved_entry
  parsed_entry origin none cookies = []
  parsed_entry origin (some u) cookies = saved_entry u origin cookies

  saved_from : CookieStore → List Text → List StoredCookieOrigin
  unfolding parsed_entry
  saved_from s [] = []
  saved_from s (origin ∷ origins) =
      parsed_entry origin (parse origin) (snapshot origin s) ++ saved_from s origins

  -- What Save writes, with the origins in the order in which Go visits them.
  pub saved_file : CookieStore → List StoredCookieOrigin
  unfolding saved_from
  saved_file s = saved_from s s.origins

  load_entry : ℤ → StoredCookieOrigin → Option Url → CookieStore → CookieStore
  unfolding add_origin
  load_entry now e none s = s
  load_entry now e (some u) s =
      let cookies = cookies_of e.cookies in
      let s' = if is_nil cookies then s else set_cookies now u cookies s in
      if is_nil u.host then s else record s' { origins = add_origin (origin_from_url u) s'.origins }

  -- the loop of Load
  pub load : ℤ → List StoredCookieOrigin → CookieStore → CookieStore
  unfolding load_entry
  load now [] s = s
  load now (e ∷ file) s = load now file (load_entry now e (parse e.origin) s)
