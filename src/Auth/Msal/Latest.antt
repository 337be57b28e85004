-- ===== src/Auth/Msal/Latest.antt =====
-- The choice of a token (internal/teams/auth/msal.go): the one that expires last.
use matrix_teams.Prelude.{
  ◌≡◌, refl, sym, subst, Bool, false, ◌⊎◌, inl, inr, Option, none, some, List, [], ◌∷◌, is_nil, All,
  ℤ, pos, ltb_ℤ, Text, arith, Bool-cases,
}
use matrix_teams.Auth.Msal.{
  Decoders, Storage, MsalCacheEncryptionKey, better, select_from, candidate, select_token,
  matches_mbi_target, select_mbi_access_token, MsalError, MsalTokenEntry, usable, or_zero,
  parse_msal_expires, read_msal_entry,
}

-- An entry that is not usable, or expires no later.
abbrev pub NotAfter : ℤ → Option (Text × ℤ) → Type 0
NotAfter expiry none = Unit
NotAfter expiry (some (token, later)) = ltb_ℤ expiry later ≡ false

-- A key whose entry gives the token.
abbrev pub Gives : (Text → Option (Text × ℤ)) → Text × ℤ → List Text → Type 0
Gives f t [] = ⊥
Gives f t (key ∷ keys) = (f key ≡ some t) ⊎ Gives f t keys

module _ (dc : Decoders) (f : Text → Option (Text × ℤ)) where
  -- Usable tokens are not empty.
  abbrev IsSound : List Text → Type 0
  IsSound keys = All (λ key. (t : Text × ℤ) → f key ≡ some t → is_nil t.0 ≡ false) keys

  NotAfter-mono :
      (a b : ℤ) (o : Option (Text × ℤ)) → ltb_ℤ b a ≡ false → NotAfter a o → NotAfter b o
  NotAfter-mono a b none h k = tt
  NotAfter-mono a b (some (t, c)) h k = ground arith

  -- What is chosen from a token in hand on: it, or that of a later key; and nothing expires later.
  abbrev Latest : Text → ℤ → List Text → Text × ℤ → Type 0
  Latest token expiry keys r =
      (ltb_ℤ r.1 expiry ≡ false)
      × (All (λ key. NotAfter r.1 (f key)) keys × ((r ≡ (token, expiry)) ⊎ Gives f r keys))

  later_key :
      (key : Text) (keys : List Text) (t r : Text × ℤ)
      → (r ≡ t) ⊎ Gives f r keys
      → (r ≡ t) ⊎ ((f key ≡ some r) ⊎ Gives f r keys)
  later_key key keys t r (inl e) = inl e
  later_key key keys t r (inr g) = inr (inr g)

  this_key :
      (key : Text) (keys : List Text) (u t r : Text × ℤ)
      → f key ≡ some t
      → (r ≡ t) ⊎ Gives f r keys
      → (r ≡ u) ⊎ ((f key ≡ some r) ⊎ Gives f r keys)
  this_key key keys u t r e (inl same) = inr (inl (rw same e))
  this_key key keys u t r e (inr g) = inr (inr g)

  Latest-cons :
      (token : Text) (expiry : ℤ) (key : Text) (keys : List Text) (o : Option (Text × ℤ))
      → is_nil token ≡ false
      → f key ≡ o
      → ((t : Text × ℤ) → o ≡ some t → is_nil t.0 ≡ false)
      → ((t : Text) (x : ℤ) → is_nil t ≡ false → Latest t x keys (select_from dc f (t, x) keys))
      → Latest token expiry (key ∷ keys) (select_from dc f (better dc (token, expiry) o) keys)
  unfolding better
  Latest-cons token expiry key keys none n e sound ih =
      let (p, (q, r)) = ih token expiry n in (p, ((rw e tt, q), later_key key keys _ _ r))
  Latest-cons token expiry key keys (some (token', expiry')) n e sound ih =
      elim (Bool-cases (ltb_ℤ expiry expiry')) [
        | inl k ↦
            let (p, (q, r)) = ih token' expiry' (sound (token', expiry') refl) in
            let chosen : better dc (token, expiry) (some (token', expiry')) ≡ (token', expiry') =
              rw (n, k) refl in
            subst (λ b. Latest token expiry (key ∷ keys) (select_from dc f b keys)) (sym chosen)
              (
                ground arith,
                ((rw e p, q), this_key key keys (token, expiry) (token', expiry') _ e r),
              )
        | inr k ↦
            let (p, (q, r)) = ih token expiry n in
            let chosen : better dc (token, expiry) (some (token', expiry')) ≡ (token, expiry) =
              rw (n, k) refl in
            subst (λ b. Latest token expiry (key ∷ keys) (select_from dc f b keys)) (sym chosen)
              (p, ((rw e (ground arith), q), later_key key keys (token, expiry) _ r))
      ]

  select_from-Latest :
      (token : Text) (expiry : ℤ) (keys : List Text)
      → is_nil token ≡ false
      → IsSound keys
      → Latest token expiry keys (select_from dc f (token, expiry) keys)
  unfolding select_from
  select_from-Latest token expiry [] n h = (ground arith, (tt, inl refl))
  select_from-Latest token expiry (key ∷ keys) n (h, hs) =
      Latest-cons token expiry key keys (f key) n refl h (λ t x m. select_from-Latest t x keys m hs)

  -- The choice from the start: nothing is usable, or the chosen token is that of a key, and no usable
  -- one expires later.
  abbrev pub IsLatest : List Text → Text × ℤ → Type 0
  IsLatest keys r =
      All (λ key. f key ≡ none) keys ⊎ (Gives f r keys × All (λ key. NotAfter r.1 (f key)) keys)

  first_key :
      (key : Text) (keys : List Text) (o : Option (Text × ℤ))
      → f key ≡ o
      → IsSound (key ∷ keys)
      → IsLatest keys (select_from dc f ([], pos 0) keys)
      → IsLatest (key ∷ keys) (select_from dc f (better dc ([], pos 0) o) keys)
  unfolding better
  first_key key keys none e h (inl q) = inl (e, q)
  first_key key keys none e h (inr (g, q)) = inr (inr g, (rw e tt, q))
  first_key key keys (some (token, expiry)) e (h, hs) rest =
      let (p, (q, r)) = select_from-Latest token expiry keys (h (token, expiry) e) hs in
      inr (from_hand r, (rw e p, q))
    where
      from_hand :
          (select_from dc f (token, expiry) keys ≡ (token, expiry))
            ⊎ Gives f (select_from dc f (token, expiry) keys) keys
          → (f key ≡ some (select_from dc f (token, expiry) keys))
            ⊎ Gives f (select_from dc f (token, expiry) keys) keys
      from_hand (inl same) = inl (rw same e)
      from_hand (inr g) = inr g

  select_from-IsLatest :
      (keys : List Text) → IsSound keys → IsLatest keys (select_from dc f ([], pos 0) keys)
  unfolding select_from
  select_from-IsLatest [] h = inl tt
  select_from-IsLatest (key ∷ keys) (h, hs) =
      first_key key keys (f key) refl (h, hs) (select_from-IsLatest keys hs)

module _ (dc : Decoders) (storage : Storage) (client_id : Text)
    (cache_key : Option MsalCacheEncryptionKey) where
  usable_sound :
      (matches : Text → Bool) (e : MsalError ⊎ MsalTokenEntry) (t : Text × ℤ)
      → usable dc matches e ≡ some t
      → is_nil t.0 ≡ false
  unfolding usable
  usable_sound matches (inl err) t h = absurd (cc)
  usable_sound matches (inr e) t h = elim (Bool-cases (is_nil e.secret)) [
    | inl k ↦ let h' : none ≡ some t = rw k at h in absurd (cc)
    | inr k ↦ elim (Bool-cases (matches e.target)) [
      | inl m ↦
          let h' : some (e.secret, or_zero dc (parse_msal_expires dc e.expires_on)) ≡ some t =
            rw (k, m) at h in
          let same : (e.secret, or_zero dc (parse_msal_expires dc e.expires_on)) ≡ t = cc in
          rw (← same) k
      | inr m ↦ let h' : none ≡ some t = rw (k, m) at h in absurd (cc)
    ]
  ]

  candidate-IsSound :
      (matches : Text → Bool) (keys : List Text)
      → IsSound dc (candidate dc matches storage client_id cache_key) keys
  unfolding candidate
  candidate-IsSound matches [] = tt
  candidate-IsSound matches (key ∷ keys) = (
    (λ t h. usable_sound matches (read_msal_entry dc storage key client_id cache_key) t h),
    candidate-IsSound matches keys,
  )

  -- The access token for Teams is that of a listed key whose entry can be read and is meant for it,
  -- and no other such entry expires later; or there is no such entry.
  pub select_mbi_access_token-IsLatest :
      (keys : List Text)
      → IsLatest dc
          (candidate dc (matches_mbi_target dc) storage client_id cache_key)
          keys
          (select_mbi_access_token dc storage keys client_id cache_key)
  unfolding select_mbi_access_token select_token
  select_mbi_access_token-IsLatest keys =
      select_from-IsLatest dc (candidate dc (matches_mbi_target dc) storage client_id cache_key)
        keys (candidate-IsSound (matches_mbi_target dc) keys)
