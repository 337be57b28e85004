-- ===== src/Client/Content/OnePass.antt =====
-- formatHTMLContent of internal/teams/client/messages.go against a single pass over the text.
use matrix_teams.Prelude.{
  ℕ, ◌≡◌, refl, ◌∙◌, ap, sym, Bool, false, ◌&&◌, ◌||◌, [], ◌∷◌, ◌++◌, append_assoc, ◌==◌,
  if◌then◌else◌, arith, Text, codes, replace_all, replace_from, has_prefix, Bool-cases, inl, inr,
}
use matrix_teams.Go.Html.{escape_string, escape_rune}
use matrix_teams.Client.Content.{normalized_breaks, format_html_content}

-- The content in one pass over the text: a break for each line feed, carriage return or pair of the
-- two, and every other rune escaped. The flag says that a carriage return stands before.
pub one_pass : Bool → Text → Text
one_pass behind [] = []
one_pass behind (c ∷ s) =
    let rest = one_pass (c == 13) s in
    if c == 10 && behind
    then rest
    else if c == 10 || c == 13
    then codes "<br>" ++ rest
    else escape_rune c ++ rest

-- What replaces one rune.
substituted : ℕ → Text → ℕ → Text
substituted d new c = if c == d then new else c ∷ []

replace_one :
    (d c : ℕ) (new s : Text)
    → replace_all (c ∷ s) (d ∷ []) new ≡ substituted d new c ++ replace_all s (d ∷ []) new
unfolding replace_all replace_from has_prefix substituted
replace_one d c new s = ground arith

replace_nil : (d : ℕ) (new : Text) → replace_all [] (d ∷ []) new ≡ []
unfolding replace_all replace_from
replace_nil d new = refl

replace_append :
    (d : ℕ) (new s t : Text)
    → replace_all (s ++ t) (d ∷ []) new ≡ replace_all s (d ∷ []) new ++ replace_all t (d ∷ []) new
replace_append d new [] t = rw (replace_nil d new) refl
replace_append d new (c ∷ s) t =
    rw (replace_one d c new (s ++ t), replace_one d c new s, replace_append d new s t)
      (sym (
        append_assoc (substituted d new c) (replace_all s (d ∷ []) new)
          (replace_all t (d ∷ []) new)))

replace-escape_rune :
    (c : ℕ)
    → replace_all (escape_rune c) (10 ∷ []) (codes "<br>")
      ≡ (if c == 10 then codes "<br>" else escape_rune c)
unfolding escape_rune replace_all replace_from has_prefix
replace-escape_rune c = ground arith

escape-substituted :
    (c : ℕ) (s : Text)
    → escape_string (substituted 13 (10 ∷ []) c ++ s)
      ≡ escape_rune (if c == 13 then 10 else c) ++ escape_string s
unfolding substituted escape_string
escape-substituted c s = elim (Bool-cases (c == 13)) [ inl e ↦ rw e refl | inr e ↦ rw e refl ]

-- What the code makes of a text without a pair of carriage return and line feed.
second : Text → Text
second t = replace_all (escape_string (replace_all t (13 ∷ []) (10 ∷ []))) (10 ∷ []) (codes "<br>")

second-cons :
    (c : ℕ) (t : Text)
    → second (c ∷ t) ≡ (if c == 10 || c == 13 then codes "<br>" else escape_rune c) ++ second t
unfolding second
second-cons c t =
    let rest = replace_all t (13 ∷ []) (10 ∷ []) in
    rw
      (
        replace_one 13 c (10 ∷ []) t,
        escape-substituted c rest,
        replace_append 10 (codes "<br>") (escape_rune (if c == 13 then 10 else c))
            (escape_string rest),
        replace-escape_rune (if c == 13 then 10 else c),
      )
      (ground arith)

first-pair :
    (s : Text)
    → replace_all (13 ∷ 10 ∷ s) (13 ∷ 10 ∷ []) (10 ∷ [])
      ≡ 10 ∷ replace_all s (13 ∷ 10 ∷ []) (10 ∷ [])
unfolding replace_all replace_from has_prefix
first-pair s = refl

first-other :
    (c d : ℕ) (s : Text)
    → (c == 13 && d == 10) ≡ false
    → replace_all (c ∷ d ∷ s) (13 ∷ 10 ∷ []) (10 ∷ [])
      ≡ c ∷ replace_all (d ∷ s) (13 ∷ 10 ∷ []) (10 ∷ [])
unfolding replace_all replace_from has_prefix
first-other c d s h = ground arith

-- A pass that is not behind a carriage return.
one_pass_step :
    (c : ℕ) (s : Text)
    → one_pass false (c ∷ s)
      ≡ (if c == 10 || c == 13 then codes "<br>" else escape_rune c) ++ one_pass (c == 13) s
unfolding one_pass
one_pass_step c s = ground arith

one_pass_flag :
    (b : Bool) (d : ℕ) (s : Text)
    → (b && d == 10) ≡ false
    → one_pass b (d ∷ s) ≡ one_pass false (d ∷ s)
unfolding one_pass
one_pass_flag b d s h = ground arith

one_pass_pair : (s : Text) → one_pass false (13 ∷ 10 ∷ s) ≡ codes "<br>" ++ one_pass false s
unfolding one_pass
one_pass_pair s = refl

one_pass_end : (b : Bool) → one_pass b [] ≡ []
unfolding one_pass
one_pass_end b = refl

second-nil : second [] ≡ []
unfolding second replace_all replace_from escape_string
second-nil = refl

first-nil : replace_all [] (13 ∷ 10 ∷ []) (10 ∷ []) ≡ []
unfolding replace_all replace_from
first-nil = refl

first-single : (c : ℕ) → replace_all (c ∷ []) (13 ∷ 10 ∷ []) (10 ∷ []) ≡ c ∷ []
unfolding replace_all replace_from has_prefix
first-single c = ground arith

second-first : (s : Text) → second (replace_all s (13 ∷ 10 ∷ []) (10 ∷ [])) ≡ one_pass false s
second-first [] = rw first-nil (second-nil ∙ sym (one_pass_end false))
second-first (c ∷ []) =
    rw (first-single c, second-cons c [], second-nil, one_pass_step c [], one_pass_end (c == 13))
      refl
second-first (c ∷ d ∷ s) = elim (Bool-cases (c == 13 && d == 10)) [
  | inl e ↦
      let p : c ≡ 13 = ground arith in
      let q : d ≡ 10 = ground arith in
      rw
        (
          p,
          q,
          first-pair s,
          second-cons 10 (replace_all s (13 ∷ 10 ∷ []) (10 ∷ [])),
          second-first s,
        )
        (sym (one_pass_pair s))
  | inr e ↦
      rw
        (
          first-other c d s e,
          second-cons c (replace_all (d ∷ s) (13 ∷ 10 ∷ []) (10 ∷ [])),
          second-first (d ∷ s),
          one_pass_step c (d ∷ s),
          one_pass_flag (c == 13) d s e,
        )
        refl
]

-- The content of a message is a paragraph of the text in one pass, in which each line feed, carriage
-- return or pair of the two is one break, and every other rune is escaped.
pub format_html_content_lem :
    (text : Text) → format_html_content text ≡ codes "<p>" ++ (one_pass false text ++ codes "</p>")
unfolding format_html_content normalized_breaks
format_html_content_lem text =
    ap (λ inner. codes "<p>" ++ (inner ++ codes "</p>")) (unfold second in second-first text)
