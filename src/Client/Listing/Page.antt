-- ===== src/Client/Listing/Page.antt =====
-- What a page of messages becomes (internal/teams/client/messages.go, ListMessages).
use matrix_teams.Prelude.{
  ℕ, ◌+◌, min, ◌≡◌, refl, ◌∙◌, sym, Bool, true, false, not, ◌&&◌, ◌||◌, Option, none, some, List,
  [], ◌∷◌, ltb, if◌then◌else◌, is_nil, All, arith, Text, text_eq, text_eq_iff, trim_space, one_of,
  Bool-cases, inl, inr,
}
use matrix_teams.Go.Strconv.{parse_uint}
use matrix_teams.Go.Sort.{count, IsAscending}
use matrix_teams.Model.Message.{RemoteMessage}
use matrix_teams.Model.Sequence.Order.{compare_numbers}
use matrix_teams.Client.Listing.{
  Packages, RawMessage, normalize_sequence_id, message_of, appended, collect, earlier, sorted,
  list_page,
}

-- The messages with a given identifier, and the entries of the page with it.
abbrev pub has_id : Text → RemoteMessage → Bool
has_id id m = text_eq id (trim_space m.message_id)

abbrev pub raw_has_id : Text → RawMessage → Bool
raw_has_id id m = text_eq id (trim_space m.id)

abbrev pub number_of : RemoteMessage → ℕ
number_of m = elim (parse_uint m.sequence_id) [ none ↦ 0 | some n ↦ n ]

abbrev pub IsNumbered : RemoteMessage → Type 0
IsNumbered m = (n : ℕ) × (parse_uint m.sequence_id ≡ some n)

abbrev pub HasNumber : RawMessage → Type 0
HasNumber m =
    (seq : Text) × ((n : ℕ) × ((normalize_sequence_id m.sequence_id ≡ some seq)
        × (parse_uint seq ≡ some n)))

-- An entry whose sequence identifier is absent, a string or a number.
abbrev pub IsValid : RawMessage → Type 0
IsValid m = (seq : Text) × (normalize_sequence_id m.sequence_id ≡ some seq)

HasNumber→IsValid : (page : List RawMessage) → All HasNumber page → All IsValid page
HasNumber→IsValid [] h = tt
HasNumber→IsValid (m ∷ page) ((seq, (n, (valid, num))), hs) =
    ((seq, valid), HasNumber→IsValid page hs)

-- How often an identifier is to be kept, where some were seen before.
abbrev pub expected : Text → List Text → ℕ → ℕ
expected id seen n = if is_nil id then n else if one_of id seen then 0 else min 1 n

some-inj : {x y : List RemoteMessage} → Option.some x ≡ some y → x ≡ y
some-inj e = cc

if_true : {A : Type 0} (x y : A) (b : Bool) → b ≡ true → (if b then x else y) ≡ x
if_true x y b e = rw e refl

if_false : {A : Type 0} (x y : A) (b : Bool) → b ≡ false → (if b then x else y) ≡ y
if_false x y b e = rw e refl

one_of_nil : (id : Text) → one_of id [] ≡ false
unfolding one_of
one_of_nil id = refl

one_of_next :
    (id u : Text) (b : Bool) (seen : List Text)
    → one_of id (if b then seen else u ∷ seen)
      ≡ (if b then one_of id seen else text_eq id u || one_of id seen)
unfolding one_of
one_of_next id u true seen = refl
one_of_next id u false seen = refl

module _ (pk : Packages) where
  has_id-message_of :
      (id : Text) (m : RawMessage) (seq : Text) → has_id id (message_of pk m seq) ≡ raw_has_id id m
  unfolding message_of
  has_id-message_of id m seq = refl

  -- A kept entry is one more message, where nothing fails.
  count-appended :
      (id : Text) (m : RawMessage) (seq : Option Text) (rest : Option (List RemoteMessage))
      (kept : List RemoteMessage)
      → appended pk m seq rest ≡ some kept
      → (tail : List RemoteMessage) × ((rest ≡ some tail)
          × (count (has_id id) kept
              ≡ (if raw_has_id id m then count (has_id id) tail + 1 else count (has_id id) tail)))
  unfolding appended
  count-appended id m none rest kept h = absurd (cc)
  count-appended id m (some seq) none kept h = absurd (cc)
  count-appended id m (some seq) (some tail) kept h =
      (tail, (refl, rw (← some-inj h) (rw (has_id-message_of id m seq) refl)))

  count-collect :
      (id : Text) (seen : List Text) (page : List RawMessage) (kept : List RemoteMessage)
      → collect pk seen page ≡ some kept
      → count (has_id id) kept ≡ expected id seen (count (raw_has_id id) page)
  unfolding collect
  count-collect id seen [] kept h = rw (← some-inj h) (ground arith)
  count-collect id seen (m ∷ page) kept h =
      let id' = trim_space m.id in
      let again = not (is_nil id') && one_of id' seen in
      let seen' = if is_nil id' || again then seen else id' ∷ seen in
      elim (Bool-cases again) [
        | inl e ↦
            let ih = count-collect id seen' page kept (sym (if_true _ _ again e) ∙ h) in
            rw ih
              (ground (arith, text_eq_iff id id', one_of_next id id' (is_nil id' || again) seen))
        | inr e ↦
            let (tail, (at, n)) =
              count-appended id m (normalize_sequence_id m.sequence_id) (collect pk seen' page) kept
                (sym (if_false _ _ again e) ∙ h) in
            let ih = count-collect id seen' page tail at in
            rw (n, ih)
              (ground (arith, text_eq_iff id id', one_of_next id id' (is_nil id' || again) seen))
      ]

  appended-IsNumbered :
      (m : RawMessage) (rest : Option (List RemoteMessage)) (kept : List RemoteMessage)
      → HasNumber m
      → ((tail : List RemoteMessage) → rest ≡ some tail → All IsNumbered tail)
      → appended pk m (normalize_sequence_id m.sequence_id) rest ≡ some kept
      → All IsNumbered kept
  unfolding appended message_of
  appended-IsNumbered m none kept (seq, (n, (valid, num))) later h =
      let h' : none ≡ some kept = rw valid at h in absurd (cc)
  appended-IsNumbered m (some tail) kept (seq, (n, (valid, num))) later h =
      let h' : Option.some (message_of pk m seq ∷ tail) ≡ some kept = rw valid at h in
      rw (← some-inj h') ((n, num), later tail refl)

  collect-IsNumbered :
      (seen : List Text) (page : List RawMessage) (kept : List RemoteMessage)
      → All HasNumber page
      → collect pk seen page ≡ some kept
      → All IsNumbered kept
  unfolding collect
  collect-IsNumbered seen [] kept hs h = rw (← some-inj h) tt
  collect-IsNumbered seen (m ∷ page) kept (has, hs) h =
      let id' = trim_space m.id in
      let again = not (is_nil id') && one_of id' seen in
      let seen' = if is_nil id' || again then seen else id' ∷ seen in
      elim (Bool-cases again) [
        | inl e ↦ collect-IsNumbered seen' page kept hs (sym (if_true _ _ again e) ∙ h)
        | inr e ↦
            appended-IsNumbered m (collect pk seen' page) kept has
              (λ tail at. collect-IsNumbered seen' page tail hs at) (sym (if_false _ _ again e) ∙ h)
      ]

  earlier_lem :
      (a b : RemoteMessage)
      → IsNumbered a
      → IsNumbered b
      → earlier a b ≡ ltb (number_of a) (number_of b)
  unfolding earlier
  earlier_lem a b (m, p) (n, q) =
      rw (earlier, compare_numbers a.sequence_id b.sequence_id m n p q) (ground (arith, p, q))

  appended_total :
      (m : RawMessage) (rest : Option (List RemoteMessage)) (tail : List RemoteMessage)
      → IsValid m
      → rest ≡ some tail
      → (kept : List RemoteMessage) × (appended pk m (normalize_sequence_id m.sequence_id) rest
          ≡ some kept)
  unfolding appended
  appended_total m rest tail (seq, valid) at = (message_of pk m seq ∷ tail, rw (valid, at) refl)

  collect_total :
      (seen : List Text) (page : List RawMessage)
      → All IsValid page
      → (kept : List RemoteMessage) × (collect pk seen page ≡ some kept)
  unfolding collect
  collect_total seen [] h = ([], refl)
  collect_total seen (m ∷ page) (valid, hs) =
      let id' = trim_space m.id in
      let again = not (is_nil id') && one_of id' seen in
      let seen' = if is_nil id' || again then seen else id' ∷ seen in
      let (tail, at) = collect_total seen' page hs in
      let (kept, at') = appended_total m (collect pk seen' page) tail valid at in
      elim (Bool-cases again) [
        | inl e ↦ (tail, if_true _ _ again e ∙ at)
        | inr e ↦ (kept, if_false _ _ again e ∙ at')
      ]

  list_page-collect :
      (page : List RawMessage) (kept : List RemoteMessage)
      → collect pk [] page ≡ some kept
      → list_page pk page ≡ some (pk.sorter.sort earlier kept)
  unfolding list_page sorted
  list_page-collect page kept at = rw at refl

  -- A page in which every sequence identifier is absent, a string or a number becomes a list in which
  -- each identifier of the page stands once, and messages without an identifier as often as in it.
  pub list_page_once :
      (page : List RawMessage) (id : Text)
      → All IsValid page
      → (result : List RemoteMessage) × ((list_page pk page ≡ some result)
          × (count (has_id id) result
              ≡ (let n = count (raw_has_id id) page in if is_nil id then n else min 1 n)))
  list_page_once page id valid =
      let (kept, at) = collect_total [] page valid in
      (
        pk.sorter.sort earlier kept,
        (
          list_page-collect page kept at,
          pk.sorter.keeps earlier (has_id id) kept
              ∙ count-collect id [] page kept at
              ∙ ground (arith, one_of_nil id),
        ),
      )

  -- A page in which every sequence identifier is a decimal number below 2^64 becomes a list in the
  -- order of these numbers.
  pub list_page-IsAscending :
      (page : List RawMessage)
      → All HasNumber page
      → (result : List RemoteMessage) × ((list_page pk page ≡ some result)
          × IsAscending number_of result)
  list_page-IsAscending page numbered =
      let (kept, at) = collect_total [] page (HasNumber→IsValid page numbered) in
      (
        pk.sorter.sort earlier kept,
        (
          list_page-collect page kept at,
          pk.sorter.orders earlier IsNumbered number_of kept earlier_lem
              (collect-IsNumbered [] page kept numbered at),
        ),
      )
