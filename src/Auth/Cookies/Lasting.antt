-- ===== src/Auth/Cookies/Lasting.antt =====
-- The cookies that the file of internal/teams/auth/cookies.go brings back as they were.
use matrix_teams.Prelude.{
  ◌≡◌, refl, sym, ap, ◌∙◌, subst, true, false, none, some, [], ◌∷◌, ◌++◌, append_assoc, append-nil,
  if◌then◌else◌, is_nil, ℤ, pos, negsuc, Text, text_eq, text_eq_iff, lookup, insert_fresh,
  IsDistinct, All, inl, inr, Bool-cases, arith,
}
use matrix_teams.Go.Time.{of_unix, unix-of_unix}
use matrix_teams.Auth.Tokens.{is_unset}
use matrix_teams.Auth.Cookies.{
  StoredCookie, Cookies, cookie_key, has_expired, stored_of, slash_or, unix_of, record_cookie,
  record_all, values, cookie_of, cookies_of,
}

module _ (now : ℤ) where
  -- A cookie that the file can bring back: it has a name and a path, stands under its own key, and
  -- has not expired.
  pub record IsLasting (e : Text × StoredCookie) : Type 0 where
    pub named : is_nil e.1.name ≡ false
    pub rooted : is_nil e.1.path ≡ false
    pub keyed : cookie_key (cookie_of e.1) ≡ e.0
    pub unexpired : has_expired now (cookie_of e.1).expires ≡ false

  is_unset-eq : (n : ℤ) → is_unset n ≡ true → n ≡ pos 0
  is_unset-eq (pos n) h = ground arith
  is_unset-eq (negsuc n) h = cc

  expiry_back : (n : ℤ) → unix_of (if is_unset n then none else some (of_unix n)) ≡ n
  unfolding unix_of
  expiry_back n = elim (Bool-cases (is_unset n)) [
    | inl e ↦ rw e (sym (is_unset-eq n e))
    | inr e ↦ rw e (unix-of_unix n)
  ]

  stored_of-cookie_of : (c : StoredCookie) → is_nil c.path ≡ false → stored_of (cookie_of c) ≡ c
  unfolding stored_of cookie_of slash_or
  stored_of-cookie_of c h =
      rw h (rw h (ap (λ (n : ℤ). record c { expires_unix = n }) (expiry_back c.expires_unix)))

  lookup-behind :
      (m n : Cookies) (k j : Text) (c : StoredCookie)
      → lookup (m ++ ((k, c) ∷ n)) j ≡ none
      → text_eq k j ≡ false
  unfolding lookup
  lookup-behind [] n k j c h = ground arith
  lookup-behind ((i, w) ∷ m) n k j c h = ground (arith, lookup-behind m n k j c)

  -- A key that stands once is not in front of itself.
  fresh_before :
      (m n : Cookies) (k : Text) (c : StoredCookie)
      → IsDistinct (m ++ ((k, c) ∷ n))
      → lookup m k ≡ none
  unfolding lookup
  fresh_before [] n k c h = refl
  fresh_before ((j, w) ∷ m) n k c (f, h) =
      ground
        (arith, lookup-behind m n k j c f, fresh_before m n k c h, text_eq_iff j k, text_eq_iff k j)

  record_cookie_lem :
      (m : Cookies) (k : Text) (c : StoredCookie)
      → IsLasting (k, c)
      → lookup m k ≡ none
      → record_cookie now m (cookie_of c) ≡ m ++ ((k, c) ∷ [])
  unfolding record_cookie cookie_of
  record_cookie_lem m k c v h =
      rw v.named
        (rw v.unexpired (rw (v.keyed, stored_of-cookie_of c v.rooted) (insert_fresh m k c h)))

  -- Cookies that the file brings back are recorded as they were.
  pub record_all-cookies_of :
      (m n : Cookies)
      → All IsLasting n
      → IsDistinct (m ++ n)
      → record_all now m (cookies_of (values n)) ≡ m ++ n
  unfolding record_all cookies_of values
  record_all-cookies_of m [] v d = sym (append-nil m)
  record_all-cookies_of m ((k, c) ∷ n) (v, vs) d =
      subst (λ x. record_all now x (cookies_of (values n)) ≡ m ++ ((k, c) ∷ n))
        (sym (record_cookie_lem m k c v (fresh_before m n k c d)))
        (record_all-cookies_of (m ++ ((k, c) ∷ [])) n vs
            (subst IsDistinct (sym (append_assoc m ((k, c) ∷ []) n)) d)
          ∙ append_assoc m ((k, c) ∷ []) n)
