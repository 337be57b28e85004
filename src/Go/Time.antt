-- ===== src/Go/Time.antt =====
-- Package time: an instant is its distance from the Unix epoch in nanoseconds, without the bounds of
-- int64 on its seconds; a Duration has 64 bits.
use matrix_teams.Prelude.{ℕ, ◌/◌, ◌≡◌, ℤ, pos, negsuc, ◌*ℤ◌, mul64, arith}

abbrev pub second : ℕ
second = 1_000_000_000

-- time.Duration(n) * time.Second
unfoldable pub seconds : ℤ → ℤ
seconds n = mul64 n (pos second)

-- time.Unix(n, 0)
unfoldable pub of_unix : ℤ → ℤ
of_unix n = n *ℤ pos second

-- t.Unix(), which rounds down
unfoldable pub unix : ℤ → ℤ
unix (pos n) = pos (n / second)
unix (negsuc n) = negsuc (n / second)

-- t.UnixMilli(), which rounds down, within the bounds of int64
unfoldable pub unix_milli : ℤ → ℤ
unix_milli (pos n) = pos (n / 1_000_000)
unix_milli (negsuc n) = negsuc (n / 1_000_000)

-- The seconds of an instant that is made from seconds.
pub unix-of_unix : (n : ℤ) → unix (of_unix n) ≡ n
unfolding unix of_unix
unix-of_unix (pos n) = ground arith
unix-of_unix (negsuc n) = ground arith
