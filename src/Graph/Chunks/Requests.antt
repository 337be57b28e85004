-- ===== src/Graph/Chunks/Requests.antt =====
-- What the loop of internal/teams/graph/chunked_upload.go sends, whatever the server answers.
use matrix_teams.Prelude.{
  ℕ, zero, suc, ◌+◌, ◌-◌, ◌^◌, ◌≤◌, ◌<◌, min, ◌≡◌, ◌≢◌, refl, false, Option, none, some, List, [],
  ◌∷◌, arith, ltb, length, take, drop, Bool-cases, inl, inr, ℤ, pos, negsuc, add64, sub64, Text,
  is_nil, trim_space, add64_pos, ltb_ℤ_pos, lt→ltb, ltb→lt,
}
use matrix_teams.Go.Strconv.{parse_int}
use matrix_teams.Graph.Item.{Result, ok, err, UploadedDriveItem, did_not_complete}
use matrix_teams.Graph.Chunks.{
  Put, Reply, Round, resume, finish, crash, Upload, returned, panicked, last_byte, slice, round,
  send, upload_from, after_round, on_reply, accepted, resume_at, range_start, leading_start,
  parse_next_expected_start, failed, nothing, response, before_dash,
}

range_start-pos : (v : Option ℤ) (z : ℤ) → range_start v ≡ ok z → (n : ℕ) × (z ≡ pos n)
unfolding range_start
range_start-pos none z h = absurd (cc)
range_start-pos (some (negsuc n)) z h = absurd (cc)
range_start-pos (some (pos n)) z h = (n, cc)

leading_start-pos : (v : Option Text) (z : ℤ) → leading_start v ≡ ok z → (n : ℕ) × (z ≡ pos n)
unfolding leading_start
leading_start-pos none z h = absurd (cc)
leading_start-pos (some []) z h = absurd (cc)
leading_start-pos (some (c ∷ s)) z h = range_start-pos (parse_int (c ∷ s)) z h

-- Where the server says to go on, if the code follows it, is no negative number.
pub parse_next_expected_start-pos :
    (v : Text) (z : ℤ) → parse_next_expected_start v ≡ ok z → (n : ℕ) × (z ≡ pos n)
unfolding parse_next_expected_start
parse_next_expected_start-pos v z h = leading_start-pos (before_dash (trim_space v)) z h

resume_at-ok : (v : Result ℤ) (z : ℤ) → resume_at v ≡ resume z → v ≡ ok z
unfolding resume_at
resume_at-ok (ok n) z h = cc
resume_at-ok (err e) z h = absurd (cc)

accepted-pos : (v : Option (List Text)) (z : ℤ) → accepted v ≡ resume z → (n : ℕ) × (z ≡ pos n)
unfolding accepted
accepted-pos none z h = absurd (cc)
accepted-pos (some []) z h = absurd (cc)
accepted-pos (some (r ∷ rs)) z h = elim (Bool-cases (is_nil (trim_space r))) [
  | inl e ↦ absurd (ground arith)
  | inr e ↦
      parse_next_expected_start-pos r z
        (resume_at-ok (parse_next_expected_start r) z (ground arith))
]

on_reply-pos :
    (fetch : Text → Option UploadedDriveItem) (r : Reply) (z : ℤ)
    → on_reply fetch r ≡ resume z
    → (n : ℕ) × (z ≡ pos n)
unfolding on_reply
on_reply-pos fetch failed z h = absurd (cc)
on_reply-pos fetch nothing z h = absurd (cc)
on_reply-pos fetch (response status body) z h =
    accepted-pos body.next_expected_ranges z (ground arith)

resume_at-ne : (v : Result ℤ) → resume_at v ≢ crash
unfolding resume_at
resume_at-ne (ok n) h = cc
resume_at-ne (err e) h = cc

accepted-ne : (v : Option (List Text)) → accepted v ≢ crash
unfolding accepted
accepted-ne none h = cc
accepted-ne (some []) h = cc
accepted-ne (some (r ∷ rs)) h = ground (arith, resume_at-ne (parse_next_expected_start r))

on_reply-ne : (fetch : Text → Option UploadedDriveItem) (r : Reply) → on_reply fetch r ≢ crash
unfolding on_reply
on_reply-ne fetch failed h = cc
on_reply-ne fetch nothing h = cc
on_reply-ne fetch (response status body) h = ground (arith, accepted-ne body.next_expected_ranges)

-- The chunk of `content` that starts at its byte i, k bytes at most.
abbrev pub chunk_end : List ℕ → ℕ → ℕ → ℕ
chunk_end content k i = min (i + k - 1) (length content - 1)

abbrev pub chunk_at : List ℕ → ℕ → ℕ → Put
chunk_at content k i = record {
  start = pos i;
  end = pos (chunk_end content k i);
  total = pos (length content);
  chunk = take (chunk_end content k i + 1 - i) (drop i content);
}

last_byte_lem :
    (k total i : ℕ)
    → i < total
    → 0 < k
    → total + k < 2 ^ 63
    → last_byte k total (pos i) ≡ pos (min (i + k - 1) (total - 1))
unfolding last_byte add64 sub64
last_byte_lem k total i h p fits = ground arith

slice_lem :
    (content : List ℕ) (i j : ℕ)
    → i ≤ j
    → j ≤ length content
    → slice content (pos i) (pos j) ≡ some (take (j - i) (drop i content))
unfolding slice
slice_lem content i j h p = ground arith

module _ {S : Type 0} (put : S → Put → Reply × S) (fetch : Text → Option UploadedDriveItem)
    (content : List ℕ) (k : ℕ) (positive : 0 < k) (fits : length content + k < 2 ^ 63) where
  pub round_lem :
      (i : ℕ) (s : S)
      → i < length content
      → round put fetch content k (pos i) s
        ≡ (on_reply fetch (put s (chunk_at content k i)).0, (put s (chunk_at content k i)).1)
  unfolding round send
  round_lem i s h = rw (
    last_byte_lem k (length content) i h positive fits,
    add64_pos (chunk_end content k i) 1 (omega arith),
    slice_lem content i (chunk_end content k i + 1) (omega arith) (omega arith),
  )

  -- One turn of the loop, in range.
  pub upload_from_step :
      (fuel i : ℕ) (s : S)
      → i < length content
      → upload_from put fetch (suc fuel) content k (pos i) s
        ≡ after_round put fetch
            (upload_from put fetch fuel content k)
            (on_reply fetch (put s (chunk_at content k i)).0)
            (put s (chunk_at content k i)).1
  unfolding upload_from
  upload_from_step fuel i s h =
      rw (round_lem i s h, ltb_ℤ_pos i (length content), lt→ltb i (length content) h)

  upload_from_stop :
      (fuel i : ℕ) (s : S)
      → ltb i (length content) ≡ false
      → upload_from put fetch (suc fuel) content k (pos i) s ≡ (returned (err did_not_complete), s)
  unfolding upload_from
  upload_from_stop fuel i s h = rw (ltb_ℤ_pos i (length content), h)

  module _ (P : S → Type 0)
      (keep : (i : ℕ) (s : S) → i < length content → P s → P (put s (chunk_at content k i)).1) where
    abbrev Safe : Upload × S → Type 0
    Safe u = P u.1 × (u.0 ≢ panicked)

    after_round-Safe :
        (again : ℤ → S → Upload × S) (r : Round) (s : S)
        → r ≢ crash
        → ((z : ℤ) → r ≡ resume z → Safe (again z s))
        → P s
        → Safe (after_round put fetch again r s)
    unfolding after_round
    after_round-Safe again (finish result) s ne go h = (h, cc)
    after_round-Safe again (resume z) s ne go h = go z refl
    after_round-Safe again crash s ne go h = absurd (ne refl)

    -- Whatever the server answers, no round panics, and every request is the chunk of the content
    -- at some byte of it: what each such request keeps, the upload keeps.
    pub upload_from-keeps :
        (fuel i : ℕ) (s : S)
        → P s
        → P (upload_from put fetch fuel content k (pos i) s).1
          × ((upload_from put fetch fuel content k (pos i) s).0 ≢ panicked)
    upload_from-keeps zero i s h = unfold upload_from in (h, cc)
    upload_from-keeps (suc fuel) i s h = elim (Bool-cases (ltb i (length content))) [
      | inl e ↦
          let inside : i < length content = ltb→lt i (length content) e in
          rw (upload_from_step fuel i s inside) (
            after_round-Safe (upload_from put fetch fuel content k) _ _ (on_reply-ne fetch _)
              (λ z at.
                let (n, num) = on_reply-pos fetch _ z at in
                rw num
                  (upload_from-keeps fuel n (put s (chunk_at content k i)).1 (keep i s inside h)))
              (keep i s inside h))
      | inr e ↦ rw (upload_from_stop fuel i s e) (h, cc)
    ]
