-- ===== src/Base/Words.antt =====
-- Machine words as native numbers. A C `int` is its bit pattern, below 2 ^ 32; signed tests read
-- the pattern, and the pattern of -k is `neg k`.
use Prim.Native.Nat.{ℕ, ◌+◌, ◌-◌, ◌%◌, ◌^◌}
use mathlib.Core.Bool.{Bool}
use tp2_so_2025q.Base.Tests.{ltb, leb, if◌then◌else◌}

abbrev pub add32 : ℕ → ℕ → ℕ
add32 a b = (a + b) % 2 ^ 32

abbrev pub sub32 : ℕ → ℕ → ℕ
sub32 a b = (a + 2 ^ 32 - b) % 2 ^ 32

abbrev pub add64 : ℕ → ℕ → ℕ
add64 a b = (a + b) % 2 ^ 64

abbrev pub sub64 : ℕ → ℕ → ℕ
sub64 a b = (a + 2 ^ 64 - b) % 2 ^ 64

abbrev pub neg : ℕ → ℕ
neg k = 2 ^ 32 - k

abbrev pub is_negative : ℕ → Bool
is_negative w = leb (2 ^ 31) w

-- `a < b` of two signed ints: adding 2 ^ 31 turns the signed order into the order of patterns.
abbrev pub lt_int : ℕ → ℕ → Bool
lt_int a b = ltb (add32 a (2 ^ 31)) (add32 b (2 ^ 31))

-- An `int` as a `uint64_t`: the sign is copied upwards.
abbrev pub sign_extend : ℕ → ℕ
sign_extend w = if is_negative w then w + (2 ^ 64 - 2 ^ 32) else w

-- A `uint64_t` as an `int` or a `uint32_t`: the low half.
abbrev pub to_int : ℕ → ℕ
to_int x = x % 2 ^ 32
