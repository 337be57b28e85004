-- ===== src/Auth/Padding.antt =====
-- unpadPKCS7 of internal/teams/auth/teams_cache.go.
pub mod RoundTrip
use matrix_teams.Prelude.{
  ℕ, zero, suc, ◌-◌, ◌%◌, Bool, not, ◌||◌, Option, none, some, List, [], ◌∷◌, ◌++◌, ltb, ◌==◌,
  if◌then◌else◌, length, take, drop, all,
}

-- The last byte; 0 of nothing.
pub last : List ℕ → ℕ
last [] = 0
last (b ∷ []) = b
last (b ∷ c ∷ bs) = last (c ∷ bs)

unfoldable pub unpad_pkcs7 : List ℕ → ℕ → Option (List ℕ)
unfolding last
unpad_pkcs7 plaintext block_size =
    let n = length plaintext in
    let padding = last plaintext in
    if n == 0 || not (n % block_size == 0)
    then none
    else if padding == 0 || ltb block_size padding || ltb n padding
    then none
    else if all (λ b. b == padding) (drop (n - padding) plaintext)
    then some (take (n - padding) plaintext)
    else none

-- What PKCS #7 says: as many bytes as are missing to the next block, each of that value.
pub replicate : ℕ → ℕ → List ℕ
replicate zero b = []
replicate (suc n) b = b ∷ replicate n b

unfoldable pub pad_pkcs7 : List ℕ → ℕ → List ℕ
unfolding replicate
pad_pkcs7 content block_size =
    let k = block_size - length content % block_size in content ++ replicate k k
