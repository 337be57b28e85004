-- ===== src/Auth/Cookies/Saved.antt =====
-- What the file of internal/teams/auth/cookies.go brings back.
use matrix_teams.Prelude.{
  ◌≡◌, refl, sym, ap, ◌∙◌, subst, Bool, true, false, ◌&&◌, Option, none, some, List, [], ◌∷◌, ◌++◌,
  if◌then◌else◌, is_nil, ℤ, Text, text_eq, text_eq_iff, one_of, lookup, insert, lookup-insert,
  IsDistinct, All, inl, inr, Bool-cases, arith,
}
use matrix_teams.Auth.Cookies.{
  StoredCookie, StoredCookieOrigin, Url, Cookies, CookieStore, new_cookie_store, host_allowed,
  origin_from_url, record_all, cookies_at, set_cookies, values, snapshot, saved_entry, parsed_entry,
  saved_from, saved_file, cookies_of, load_entry, load,
}
use matrix_teams.Auth.Cookies.Lasting.{IsLasting, record_all-cookies_of}

-- The record of an origin brings back as it is.
abbrev pub IsSavable : ℤ → Cookies → Type 0
IsSavable now m = All (IsLasting now) m × IsDistinct m

-- An origin is the address from which it was made.
pub record IsOrigin (parse : Text → Option Url) (origin : Text) : Type 0 where
  pub url : Url
  pub parsed : parse origin ≡ some url
  pub same : origin_from_url url ≡ origin
  pub hosted : is_nil url.host ≡ false

abbrev allows : Option Url → Bool
allows none = false
allows (some u) = host_allowed u.hostname

-- Whether the host of an origin is one of those that may be written.
abbrev pub is_allowed : (Text → Option Url) → Text → Bool
is_allowed parse origin = allows (parse origin)

abbrev pub IsDistinctOrigins : List Text → Type 0
IsDistinctOrigins [] = Unit
IsDistinctOrigins (a ∷ origins) = (one_of a origins ≡ false) × IsDistinctOrigins origins

abbrev at : Text → CookieStore → Cookies
at origin s = cookies_at (lookup s.by_origin origin)

nothing_yet : (origins : List Text) → All (λ a. at a new_cookie_store ≡ []) origins
unfolding lookup
nothing_yet [] = tt
nothing_yet (a ∷ origins) = (refl, nothing_yet origins)

module _ (parse : Text → Option Url) (now : ℤ) where
  load-append :
      (xs ys : List StoredCookieOrigin) (t : CookieStore)
      → load parse now (xs ++ ys) t ≡ load parse now ys (load parse now xs t)
  unfolding load
  load-append [] ys t = refl
  load-append (e ∷ xs) ys t = load-append xs ys (load_entry parse now e (parse e.origin) t)

  -- The record of an origin that is set anew.
  at-insert :
      (a : Text) (m : Cookies) (t : List (Text × Cookies)) (o : Text)
      → cookies_at (lookup (insert t a m) o)
        ≡ (if text_eq a o && true then m else cookies_at (lookup t o))
  at-insert a m t o =
      rw (lookup-insert t a o m)
        (elim (Bool-cases (text_eq a o)) [ inl e ↦ rw e refl | inr e ↦ rw e refl ])

  set_cookies-loaded :
      (a : Text) (m : Cookies) (u : Url) (t : CookieStore)
      → is_nil u.host ≡ false
      → origin_from_url u ≡ a
      → IsSavable now m
      → at a t ≡ []
      → (set_cookies now u (cookies_of (values m)) t).by_origin ≡ insert t.by_origin a m
  unfolding set_cookies
  set_cookies-loaded a m u t h same (v, d) e = rw h (
      rw same (
        ap (λ x. insert t.by_origin a x)
          (ap (λ x. record_all now x (cookies_of (values m))) e
            ∙ record_all-cookies_of now [] m v d)))

  filled :
      (k : Text) (c : StoredCookie) (n : Cookies)
      → is_nil (cookies_of (values ((k, c) ∷ n))) ≡ false
  unfolding cookies_of values
  filled k c n = refl

  -- One origin, its cookies not empty.
  load_one :
      (a k : Text) (c : StoredCookie) (n : Cookies) (t : CookieStore)
      → IsOrigin parse a
      → IsSavable now ((k, c) ∷ n)
      → at a t ≡ []
      → (o : Text)
      → at o (load parse now (record { origin = a; cookies = values ((k, c) ∷ n) } ∷ []) t)
        ≡ (if text_eq a o && true then (k, c) ∷ n else at o t)
  unfolding load load_entry
  load_one a k c n t v g e o = rw v.parsed (
      rw (v.hosted, filled k c n)
        (ap (λ x. cookies_at (lookup x o))
            (set_cookies-loaded a ((k, c) ∷ n) v.url t v.hosted v.same g e)
          ∙ at-insert a ((k, c) ∷ n) t.by_origin o))

  load_nothing :
      (a : Text) (t : CookieStore)
      → at a t ≡ []
      → (o : Text) (b : Bool) → at o t ≡ (if text_eq a o && b then [] else at o t)
  load_nothing a t e o b = elim (Bool-cases (text_eq a o && b)) [
    | inl h ↦
        let p : a ≡ o = (text_eq_iff a o).0 (ground arith) in rw h (subst (λ x. at x t ≡ []) p e)
    | inr h ↦ rw h refl
  ]

  and_false : (b : Bool) (m n : Cookies) → n ≡ (if b && false then m else n)
  and_false true m n = refl
  and_false false m n = refl

  load-parsed_entry :
      (a : Text) (m : Cookies) (t : CookieStore)
      → IsOrigin parse a
      → IsSavable now m
      → at a t ≡ []
      → (o : Text)
      → at o (load parse now (parsed_entry parse a (parse a) (values m)) t)
        ≡ (if text_eq a o && is_allowed parse a then m else at o t)
  unfolding parsed_entry saved_entry
  load-parsed_entry a [] t v g e o = rw v.parsed (
      rw v.hosted (elim (Bool-cases (host_allowed v.url.hostname)) [
        | inl y ↦ rw y (unfold values in unfold load in load_nothing a t e o true)
        | inr n ↦ rw n (unfold load in load_nothing a t e o false)
      ]))
  load-parsed_entry a ((k, c) ∷ n) t v g e o = rw v.parsed (
      rw v.hosted (elim (Bool-cases (host_allowed v.url.hostname)) [
        | inl y ↦ rw y (unfold values in load_one a k c n t v g e o)
        | inr n' ↦ rw n' (unfold load in and_false (text_eq a o) ((k, c) ∷ n) (at o t))
      ]))

  still_fresh :
      (a : Text) (m : Cookies) (x : Bool) (t t' : CookieStore)
      → ((o : Text) → at o t' ≡ (if text_eq a o && x then m else at o t))
      → (origins : List Text) → one_of a origins ≡ false
      → All (λ o. at o t ≡ []) origins
      → All (λ o. at o t' ≡ []) origins
  unfolding one_of
  still_fresh a m x t t' step [] f h = tt
  still_fresh a m x t t' step (o ∷ origins) f (h, hs) =
      (ground (arith, step o), still_fresh a m x t t' step origins (ground arith) hs)

  -- What the rest of the file gives, and what the first entry gives, make what the file gives.
  both :
      (a o : Text) (origins : List Text) (f : Text → Bool) (cookies : Text → Cookies)
      (first rest other : Cookies)
      → one_of a origins ≡ false
      → first ≡ (if text_eq a o && f a then cookies a else other)
      → rest ≡ (if one_of o origins && f o then cookies o else first)
      → rest ≡ (if one_of o (a ∷ origins) && f o then cookies o else other)
  unfolding one_of
  both a o origins f cookies first rest other d p q = elim (Bool-cases (text_eq a o)) [
    | inl e ↦
        let same : a ≡ o = (text_eq_iff a o).0 e in
        let absent : one_of o origins ≡ false = subst (λ x. one_of x origins ≡ false) same d in
        let first' : first ≡ (if true && f o then cookies o else other) =
          subst (λ x. first ≡ (if true && f x then cookies x else other)) same (rw e at p) in
        let e' : text_eq o a ≡ true = (text_eq_iff o a).1 (sym same) in
        rw e' (rw absent at q ∙ first')
    | inr n ↦ ground (arith, text_eq_iff o a, text_eq_iff a o)
  ]

  load-saved_from :
      (s : CookieStore) (origins : List Text) (t : CookieStore)
      → All (λ a. IsOrigin parse a × IsSavable now (at a s)) origins
      → IsDistinctOrigins origins
      → All (λ a. at a t ≡ []) origins
      → (o : Text)
      → at o (load parse now (saved_from parse s origins) t)
        ≡ (if one_of o origins && is_allowed parse o then at o s else at o t)
  unfolding saved_from snapshot
  load-saved_from s [] t v d e o = unfold load in unfold one_of in refl
  load-saved_from s (a ∷ origins) t ((v, g), vs) (d, ds) (e, es) o =
      let entries = parsed_entry parse a (parse a) (snapshot a s) in
      let t' = load parse now entries t in
      let step = load-parsed_entry a (at a s) t v g e in
      let rest =
        load-saved_from s origins t' vs ds
          (still_fresh a (at a s) (is_allowed parse a) t t' step origins d es) o in
      rw (load-append entries (saved_from parse s origins) t)
        (both a o origins (is_allowed parse) (λ x. at x s) (at o t') _ (at o t) d (step o) rest)

-- A store that is saved and loaded into a new one has, for each origin, the record of the first one
-- where the origin is tracked and its host allowed, and no cookies where not. This is for tracked
-- origins that are addresses, and records whose cookies have a name and a path, stand under their
-- keys, and have not expired.
pub load-saved_file :
    (parse : Text → Option Url) (now : ℤ) (s : CookieStore)
    → All (λ a. IsOrigin parse a × IsSavable now (cookies_at (lookup s.by_origin a))) s.origins
    → IsDistinctOrigins s.origins
    → (o : Text)
    → cookies_at (lookup (load parse now (saved_file parse s) new_cookie_store).by_origin o)
      ≡ (if one_of o s.origins && is_allowed parse o then cookies_at (lookup s.by_origin o) else [])
unfolding saved_file lookup
load-saved_file parse now s v d o =
    load-saved_from parse now s s.origins new_cookie_store v d (nothing_yet s.origins) o
