-- ===== src/Auth/Cookies/Stale.antt =====
-- A removal that the record of internal/teams/auth/cookies.go misses.
use matrix_teams.Prelude.{
  ◌≡◌, refl, ◌∙◌, false, some, [], ◌∷◌, ◌++◌, is_nil, ℤ, pos, negsuc, ltb_ℤ, Text, codes, text_eq,
  text_eq_refl, join, lookup, insert, lookup-insert, lookup-erase, ==_refl,
}
use matrix_teams.Auth.Cookies.{
  Cookie, Cookies, cookie_key, has_expired, stored_of, record_cookie, record_all,
}

text_eq-same_front : (s x y : Text) → text_eq (s ++ x) (s ++ y) ≡ text_eq x y
unfolding text_eq
text_eq-same_front [] x y = refl
text_eq-same_front (c ∷ s) x y = rw (==_refl c) (text_eq-same_front s x y)

-- The cookie with an explicit path "/", to be removed.
abbrev pub removal : Cookie → Cookie
removal c = record c { path = codes "/"; max_age = negsuc 0 }

distinct_keys : (c : Cookie) → c.path ≡ [] → text_eq (cookie_key (removal c)) (cookie_key c) ≡ false
unfolding cookie_key join text_eq
distinct_keys c h =
    let bar = codes "|" in
    rw h (
      text_eq-same_front (c.name ++ bar) ((c.domain ++ bar) ++ codes "/") ((c.domain ++ bar) ++ [])
      ∙ text_eq-same_front (c.domain ++ bar) (codes "/") []
      ∙ refl)

-- A cookie that comes without a path is recorded with the path "/", and its removal with that path
-- does not remove it from the record.
pub stale_cookie :
    (now : ℤ) (m : Cookies) (c : Cookie)
    → is_nil c.name ≡ false
    → c.path ≡ []
    → ltb_ℤ c.max_age (pos 0) ≡ false
    → has_expired now c.expires ≡ false
    → (lookup (record_all now m (c ∷ removal c ∷ [])) (cookie_key c) ≡ some (stored_of c))
      × ((stored_of c).path ≡ codes "/")
unfolding record_all record_cookie
stale_cookie now m c named p kept fresh = (
  rw named (
      rw (kept, fresh)
        (lookup-erase (insert m (cookie_key c) (stored_of c)) (cookie_key (removal c))
            (cookie_key c)
          ∙ rw (distinct_keys c p) (
              lookup-insert m (cookie_key c) (cookie_key c) (stored_of c)
              ∙ rw (text_eq_refl (cookie_key c)) refl))),
  unfold stored_of in rw p refl,
)
