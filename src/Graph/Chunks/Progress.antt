-- ===== src/Graph/Chunks/Progress.antt =====
-- An upload (internal/teams/graph/chunked_upload.go) to a session that keeps what it is sent in order,
-- and one to a session that never moves on.
use matrix_teams.Prelude.{
  ℕ, zero, suc, ◌+◌, ◌-◌, ◌*◌, ◌%◌, ◌^◌, ◌≤◌, ◌<◌, ◌≡◌, ◌≢◌, refl, Bool, true, false, Option, none,
  some, List, [], ◌∷◌, ◌++◌, arith, if◌then◌else◌, length, take, ℤ, pos, negsuc, Text, is_nil,
  trim_space, ◌==◌, All, is_space, trim_space-solid, length-take, take-append-take, take_all,
  ==_refl, lt→==,
}
use native.Mathlib.Decide.{dec_lt}
use matrix_teams.Go.Strconv.{IsDigit, parse_int, format_uint}
use matrix_teams.Go.Strconv.Digits.{digits_solid, format_uint-All, format_uint-ne-nil}
use matrix_teams.Go.Strconv.RoundTrip.{parse_int-format_uint}
use matrix_teams.Graph.Item.{ok, UploadedDriveItem, ItemPayload, item_or_fetch}
use matrix_teams.Graph.Chunks.{
  Put, Reply, resume, finish, returned, out_of_fuel, upload_file_in_chunks, chunk_size,
  chunk_size_align, upload_from, after_round, on_reply, accepted, resume_at, range_start,
  leading_start, parse_next_expected_start, response, before_dash,
}
use matrix_teams.Graph.Chunks.Requests.{chunk_at, chunk_end, upload_from_step}

-- The range "n-" that a session asks to go on with.
abbrev pub open_range : ℕ → Text
open_range n = format_uint n ++ (b'-' ∷ [])

before_dash-digits : (s rest : Text) → All IsDigit s → before_dash (s ++ (b'-' ∷ rest)) ≡ some s
unfolding before_dash
before_dash-digits [] rest h = refl
before_dash-digits (c ∷ s) rest (d, ds) = ground (arith, before_dash-digits s rest ds)

solid_range : (s : Text) → All IsDigit s → All (λ c. is_space c ≡ false) (s ++ (b'-' ∷ []))
solid_range [] h = unfold is_space in (refl, tt)
solid_range (c ∷ s) (d, ds) = ((digits_solid (c ∷ s) (d, ds)).0, solid_range s ds)

leading_start-digits : (s : Text) → s ≢ [] → leading_start (some s) ≡ range_start (parse_int s)
unfolding leading_start
leading_start-digits [] h = absurd (h refl)
leading_start-digits (c ∷ s) h = refl

-- The range "n-" is read as n, for every n in the range of int64.
pub parse-open_range : (n : ℕ) → n < 2 ^ 63 → parse_next_expected_start (open_range n) ≡ ok (pos n)
unfolding parse_next_expected_start range_start
parse-open_range n h =
    let digits = format_uint-All n in
    rw (
      trim_space-solid (open_range n) (solid_range (format_uint n) digits),
      before_dash-digits (format_uint n) [] digits,
      leading_start-digits (format_uint n) (format_uint-ne-nil n),
      parse_int-format_uint n h,
    )

is_at : ℕ → ℤ → Bool
is_at n (pos m) = m == n
is_at n (negsuc m) = false

-- An upload session of Graph: a chunk that starts where the bytes so far end is kept, and any other
-- is not; the answer asks for the rest, or is the item when all `total` bytes are there.
pub session_reply : ItemPayload → ℕ → List ℕ → Reply
session_reply item total s =
    if length s == total
    then response 201 (record {
      readable = true;
      item = some item;
      item_id = some item.id;
      next_expected_ranges = none;
    })
    else response 202 (record {
      readable = true;
      item = none;
      item_id = none;
      next_expected_ranges = some (open_range (length s) ∷ []);
    })

pub session : ItemPayload → ℕ → List ℕ → Put → Reply × List ℕ
session item total s r =
    let s' = if is_at (length s) r.start then s ++ r.chunk else s in
    (session_reply item total s', s')

is_nil-append : (s : Text) (c : ℕ) → is_nil (s ++ (c ∷ [])) ≡ false
is_nil-append [] c = refl
is_nil-append (d ∷ s) c = refl

accepted-open_range : (n : ℕ) → n < 2 ^ 63 → accepted (some (open_range n ∷ [])) ≡ resume (pos n)
unfolding accepted resume_at
accepted-open_range n h =
    let trimmed =
      trim_space-solid (open_range n) (solid_range (format_uint n) (format_uint-All n)) in
    rw (trimmed, is_nil-append (format_uint n) b'-', parse-open_range n h)

reply_last :
    (fetch : Text → Option UploadedDriveItem) (item : ItemPayload) (total : ℕ) (s : List ℕ)
    → length s ≡ total
    → on_reply fetch (session_reply item total s)
      ≡ finish (item_or_fetch fetch (some item) (some item.id))
unfolding session_reply on_reply
reply_last fetch item total s h = rw (h, ==_refl total)

reply_more :
    (fetch : Text → Option UploadedDriveItem) (item : ItemPayload) (total : ℕ) (s : List ℕ)
    → length s < total
    → total < 2 ^ 63
    → on_reply fetch (session_reply item total s) ≡ resume (pos (length s))
unfolding session_reply on_reply
reply_more fetch item total s h fits =
    rw (lt→== (length s) total h) (accepted-open_range (length s) (omega arith))

module _ (item : ItemPayload) (fetch : Text → Option UploadedDriveItem) (content : List ℕ) (k : ℕ)
    (positive : 0 < k) (fits : length content + k < 2 ^ 63) where
  session_step :
      (i : ℕ)
      → i < length content
      → session item (length content) (take i content) (chunk_at content k i) ≡ (
          let s = take (chunk_end content k i + 1) content in
          (session_reply item (length content) s, s))
  unfolding session is_at
  session_step i h =
      let j = chunk_end content k i + 1 in
      let e : i + (j - i) ≡ j = omega arith in
      let l : length (take i content) ≡ i = omega (arith, length-take i content) in
      rw (l, ==_refl i, take-append-take i (j - i) content, e)

  Done : ℕ → ℕ → Type 0
  Done fuel i =
      upload_from (session item (length content)) fetch fuel content k (pos i) (take i content)
      ≡ (returned (item_or_fetch fetch (some item) (some item.id)), content)

  step_last : (fuel i : ℕ) → i < length content → length content ≤ i + k → Done (suc fuel) i
  unfolding Done after_round
  step_last fuel i h last =
      let j = chunk_end content k i + 1 in
      let whole : take j content ≡ content = take_all j content (omega arith) in
      rw (
        upload_from_step (session item (length content)) fetch content k positive fits fuel i
            (take i content) h,
        session_step i h,
        whole,
        reply_last fetch item (length content) content refl,
      )

  step_more : (fuel i : ℕ) → i + k < length content → Done fuel (i + k) → Done (suc fuel) i
  unfolding Done after_round
  step_more fuel i more later =
      let j : chunk_end content k i + 1 ≡ i + k = omega arith in
      let l : length (take (i + k) content) ≡ i + k = omega (arith, length-take (i + k) content) in
      rw
        (
          upload_from_step (session item (length content)) fetch content k positive fits fuel i
              (take i content) (omega arith),
          session_step i (omega arith),
          j,
          reply_more fetch item (length content) (take (i + k) content) (omega arith) (omega arith),
          l,
        )
        later

  -- With k bytes at most in a chunk, fuel for one round per k bytes is enough.
  upload_from_session :
      (fuel i : ℕ) → i < length content → length content ≤ i + fuel * k → Done fuel i
  upload_from_session zero i h enough = absurd (omega arith)
  upload_from_session (suc fuel) i h enough = elim (dec_lt (i + k) (length content)) [
    | yes more ↦ step_more fuel i more (upload_from_session fuel (i + k) more (omega arith))
    | no last ↦ step_last fuel i h (omega arith)
  ]

-- A whole upload: with a session address, content, a chunk size that is a multiple of 320 KiB (or
-- not set), and a session that keeps what it is sent, fuel for one round per chunk is enough, the
-- session ends with exactly the content, and the result is the item of the last answer.
pub upload_complete :
    (item : ItemPayload) (fetch : Text → Option UploadedDriveItem) (fuel : ℕ) (url : Text)
    (content : List ℕ) (configured : ℕ)
    → is_nil (trim_space url) ≡ false
    → 0 < length content
    → chunk_size configured % chunk_size_align ≡ 0
    → length content + chunk_size configured < 2 ^ 63
    → length content ≤ fuel * chunk_size configured
    → upload_file_in_chunks (session item (length content)) fetch fuel url content configured []
      ≡ (returned (item_or_fetch fetch (some item) (some item.id)), content)
unfolding upload_file_in_chunks Done
upload_complete item fetch fuel url [] configured u c a f e = absurd (omega arith)
upload_complete item fetch fuel url (x ∷ xs) configured u c a f e =
    let p : 0 < chunk_size configured = ground arith in
    rw (u, a)
      (upload_from_session item fetch (x ∷ xs) (chunk_size configured) p f fuel 0 c (omega arith))

-- A session that keeps nothing and always asks for the first byte.
pub stalled : List ℕ → Put → Reply × List ℕ
stalled s r = (
  response 202 (record {
    readable = true;
    item = none;
    item_id = none;
    next_expected_ranges = some (open_range 0 ∷ []);
  }),
  s,
)

-- Against a session that keeps nothing and always asks for the first byte, the loop never ends,
-- whatever the fuel: nothing in it asks that the start moves on.
pub upload_stalls :
    (fetch : Text → Option UploadedDriveItem) (fuel : ℕ) (content : List ℕ) (k : ℕ) (s : List ℕ)
    → 0 < length content
    → 0 < k
    → length content + k < 2 ^ 63
    → (upload_from stalled fetch fuel content k (pos 0) s).0 ≡ out_of_fuel
unfolding stalled on_reply after_round
upload_stalls fetch zero content k s c p f = unfold upload_from in refl
upload_stalls fetch (suc fuel) content k s c p f =
    rw
      (upload_from_step stalled fetch content k p f fuel 0 s c, accepted-open_range 0 (omega arith))
      (upload_stalls fetch fuel content k s c p f)
