-- ===== src/Userlib/Tests.antt =====
-- Texts of numbers.
use tp2_so_2025q.Base.{ℕ, ◌≡◌, refl, some, List, [], ◌∷◌, ◌++◌, replicate, arith}
use tp2_so_2025q.Text.{codes}
use tp2_so_2025q.Userlib.{uint_to_base, number, no_number, too_large, char_to_int, int_to_char}
use tp2_so_2025q.Userlib.Decimal.{char_to_int-int_to_char}

-- The guard lets 2 ^ 32 - 1 pass, which as an `int` is -1.
minus_one : char_to_int (codes "4294967295") ≡ number 4294967295
unfolding char_to_int
minus_one = refl

above : char_to_int (codes "4294967296") ≡ too_large
unfolding char_to_int
above = refl

a_letter : char_to_int (codes "12a") ≡ no_number
unfolding char_to_int
a_letter = refl

hexadecimal : uint_to_base 48879 (replicate 6 7) 16 ≡ some (codes "BEEF" ++ 0 ∷ 7 ∷ [], 4)
unfolding uint_to_base
hexadecimal = refl

negative : int_to_char 4294967254 (replicate 4 7) ≡ some (codes "-42" ++ 0 ∷ [])
unfolding int_to_char
negative = refl

char_to_int-int_to_char_example :
    (out : List ℕ) × (int_to_char 1024 (replicate 16 7) ≡ some out)
    × (char_to_int out ≡ number 1024)
char_to_int-int_to_char_example =
    char_to_int-int_to_char 1024 (replicate 16 7) (omega arith) (omega arith)
