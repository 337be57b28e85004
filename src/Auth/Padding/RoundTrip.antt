-- ===== src/Auth/Padding/RoundTrip.antt =====
-- unpadPKCS7 (internal/teams/auth/teams_cache.go) against the definition of the padding.
use matrix_teams.Prelude.{
  ℕ, zero, suc, ◌+◌, ◌-◌, ◌%◌, ◌≤◌, ◌≡◌, refl, sym, ◌∙◌, ap, Bool, true, not, ◌||◌, none, some,
  List, [], ◌∷◌, ◌++◌, ltb, ◌==◌, if◌then◌else◌, length, take, drop, all, length-append,
  length-take, length-drop, take-append-drop, ◌↔◌, arith, Bool-cases, inl, inr,
}
use matrix_teams.Auth.Padding.{last, unpad_pkcs7, replicate, pad_pkcs7}

length-replicate : (n b : ℕ) → length (replicate n b) ≡ n
unfolding replicate
length-replicate zero b = refl
length-replicate (suc n) b = ap suc (length-replicate n b)

drop-append : (xs ys : List ℕ) → drop (length xs) (xs ++ ys) ≡ ys
drop-append [] ys = refl
drop-append (x ∷ xs) ys = drop-append xs ys

take-append : (xs ys : List ℕ) → take (length xs) (xs ++ ys) ≡ xs
take-append [] ys = refl
take-append (x ∷ xs) ys = ap (λ r. x ∷ r) (take-append xs ys)

all-replicate : (n b : ℕ) → all (λ c. c == b) (replicate n b) ≡ true
unfolding replicate
all-replicate zero b = refl
all-replicate (suc n) b = ground (arith, all-replicate n b)

last-replicate : (n b : ℕ) → last (replicate (suc n) b) ≡ b
unfolding last replicate
last-replicate zero b = refl
last-replicate (suc n) b = last-replicate n b

last-cons : (x y : ℕ) (ys : List ℕ) → last (x ∷ y ∷ ys) ≡ last (y ∷ ys)
unfolding last
last-cons x y ys = refl

last-append : (xs : List ℕ) (y : ℕ) (ys : List ℕ) → last (xs ++ (y ∷ ys)) ≡ last (y ∷ ys)
last-append [] y ys = refl
last-append (x ∷ []) y ys = last-cons x y ys
last-append (x ∷ x' ∷ xs) y ys = last-cons x x' (xs ++ (y ∷ ys)) ∙ last-append (x' ∷ xs) y ys

-- A list of one value is made of copies of it.
replicate_of_all :
    (b : ℕ) (xs : List ℕ) → all (λ c. c == b) xs ≡ true → xs ≡ replicate (length xs) b
unfolding replicate
replicate_of_all b [] h = refl
replicate_of_all b (x ∷ xs) h =
    let at : x ≡ b = ground arith in
    let rest : all (λ c. c == b) xs ≡ true = ground arith in
    rw at (ap (λ r. b ∷ r) (replicate_of_all b xs rest))

last-padded : (content : List ℕ) (k : ℕ) → last (content ++ replicate (suc k) (suc k)) ≡ suc k
unfolding replicate
last-padded content k = last-append content (suc k) (replicate k (suc k)) ∙ last-replicate k (suc k)

-- The tests and the cut of `unpad_pkcs7`, by the length and the last byte.
unpad_by :
    (p : List ℕ) (n k : ℕ)
    → length p ≡ n
    → last p ≡ k
    → unpad_pkcs7 p 16 ≡ (
        if n == 0 || not (n % 16 == 0)
        then none
        else if k == 0 || ltb 16 k || ltb n k
        then none
        else if all (λ b. b == k) (drop (n - k) p)
        then some (take (n - k) p)
        else none)
unfolding unpad_pkcs7
unpad_by p n k e f = rw (e, f) refl

unpad-append :
    (content : List ℕ) (k : ℕ)
    → (length content + suc k) % 16 ≡ 0
    → suc k ≤ 16
    → unpad_pkcs7 (content ++ replicate (suc k) (suc k)) 16 ≡ some content
unpad-append content k whole small =
    let p = content ++ replicate (suc k) (suc k) in
    let len : length p ≡ length content + suc k =
      length-append content (replicate (suc k) (suc k))
      ∙ ap (λ m. length content + m) (length-replicate (suc k) (suc k)) in
    let cut : length content + suc k - suc k ≡ length content = omega arith in
    unpad_by p (length content + suc k) (suc k) len (last-padded content k)
    ∙ rw
        (
          cut,
          drop-append content (replicate (suc k) (suc k)),
          take-append content (replicate (suc k) (suc k)),
          all-replicate (suc k) (suc k),
          whole,
        )
        (ground arith)

unpad-pad : (content : List ℕ) → unpad_pkcs7 (pad_pkcs7 content 16) 16 ≡ some content
unfolding pad_pkcs7
unpad-pad content =
    let k = 15 - length content % 16 in
    let size : 16 - length content % 16 ≡ suc k = omega arith in
    rw size (unpad-append content k (omega arith) (omega arith))

-- What was cut off, put back.
put_back :
    (p : List ℕ) (k : ℕ)
    → k ≤ length p
    → all (λ b. b == k) (drop (length p - k) p) ≡ true
    → p ≡ take (length p - k) p ++ replicate k k
put_back p k small same =
    let len : length (drop (length p - k) p) ≡ k = length-drop (length p - k) p ∙ omega arith in
    let copies : drop (length p - k) p ≡ replicate k k =
      replicate_of_all k (drop (length p - k) p) same ∙ ap (λ n. replicate n k) len in
    sym (take-append-drop (length p - k) p) ∙ ap (λ r. take (length p - k) p ++ r) copies

pad-take :
    (p : List ℕ) (k : ℕ)
    → length p % 16 ≡ 0
    → 1 ≤ k
    → k ≤ 16
    → k ≤ length p
    → pad_pkcs7 (take (length p - k) p) 16 ≡ take (length p - k) p ++ replicate k k
unfolding pad_pkcs7
pad-take p k whole one small fits =
    let len : length (take (length p - k) p) ≡ length p - k =
      length-take (length p - k) p ∙ omega arith in
    let size : 16 - length (take (length p - k) p) % 16 ≡ k = omega arith in rw size refl

tests :
    (n k : ℕ) (b : Bool) (c content : List ℕ)
    → (if n == 0 || not (n % 16 == 0)
        then none
        else if k == 0 || ltb 16 k || ltb n k
        then none
        else if b
        then some c
        else none)
      ≡ some content
    → (n % 16 ≡ 0) × ((1 ≤ k) × ((k ≤ 16) × ((k ≤ n) × ((b ≡ true) × (c ≡ content)))))
tests n k b c content h = elim (Bool-cases (n == 0 || not (n % 16 == 0))) [
  | inl e ↦ let h' : none ≡ some content = rw e at h in absurd (cc)
  | inr e ↦ elim (Bool-cases (k == 0 || ltb 16 k || ltb n k)) [
    | inl f ↦ let h' : none ≡ some content = rw (e, f) at h in absurd (cc)
    | inr f ↦ elim (Bool-cases b) [
      | inl g ↦
          let h' : some c ≡ some content = rw (e, f, g) at h in
          (ground arith, (ground arith, (ground arith, (ground arith, (g, cc)))))
      | inr g ↦ let h' : none ≡ some content = rw (e, f, g) at h in absurd (cc)
    ]
  ]
]

-- On blocks of sixteen bytes `unpadPKCS7` is the inverse of the padding: it gives a content exactly
-- where it is handed that content, padded.
pub unpad_pkcs7_iff :
    (p content : List ℕ) → (unpad_pkcs7 p 16 ≡ some content) ↔ (p ≡ pad_pkcs7 content 16)
unpad_pkcs7_iff p content = (
  (λ h.
      let n = length p in
      let k = last p in
      let (whole, (one, (small, (fits, (same, cut))))) =
        tests n k (all (λ b. b == k) (drop (n - k) p)) (take (n - k) p) content
          (sym (unpad_by p n k refl refl) ∙ h) in
      put_back p k fits same
      ∙ sym (pad-take p k whole one small fits)
      ∙ ap (λ c. pad_pkcs7 c 16) cut),
  (λ e. ap (λ q. unpad_pkcs7 q 16) e ∙ unpad-pad content),
)
