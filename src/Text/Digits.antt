-- ===== src/Text/Digits.antt =====
-- `reverse` and `itoa` of Kernel/libs/lib_str.c. Kernel/pipes.c has the same functions once more.
use tp2_so_2025q.Base.{
  ℕ, zero, suc, ◌+◌, ◌-◌, ◌/◌, ◌%◌, Option, none, some, List, [], ◌∷◌, ◌++◌, ltb, ◌==◌,
  if◌then◌else◌, get_or, set, neg, is_negative, to_int,
}
use tp2_so_2025q.Text.{strlen, cons_some}

-- The loop of `reverse` with the rounds left.
unfoldable pub swap_ends : ℕ → List ℕ → ℕ → ℕ → List ℕ
swap_ends zero s i j = s
swap_ends (suc r) s i j =
    let rest = swap_ends r (set (set s i (get_or s j 0)) j (get_or s i 0)) (suc i) (j - 1) in
    if ltb i j then rest else s

unfoldable pub reverse : List ℕ → List ℕ
unfolding swap_ends
reverse s = swap_ends (strlen s) s 0 (strlen s - 1)

unfoldable pub digit_char : ℕ → ℕ
digit_char digit = if ltb digit 10 then digit + 48 else digit - 10 + 65

-- The characters that the `do … while` of `itoa` writes, with the rounds left: the last digit first.
unfoldable pub digits : ℕ → ℕ → ℕ → List ℕ
unfolding digit_char
digits zero n base = []
digits (suc r) n base =
    let rest = digits r (n / base) base in
    digit_char (n % base) ∷ (if n / base == 0 then [] else rest)

-- The buffer with the characters written from its start on.
unfoldable pub put_chars : List ℕ → List ℕ → Option (List ℕ)
unfolding cons_some
put_chars cs [] = elim cs [ [] ↦ some [] | c ∷ cs' ↦ none ]
put_chars [] (d ∷ dest) = some (d ∷ dest)
put_chars (c ∷ cs) (d ∷ dest) = cons_some c (put_chars cs dest)

-- The 32 rounds are enough for an `int` in any base from 2 on. The `int` n is above -2 ^ 31.
unfoldable pub itoa : ℕ → List ℕ → ℕ → Option (List ℕ)
unfolding digits put_chars reverse
itoa n s base =
    let size = if is_negative n then to_int (neg n) else n in
    let sign = if is_negative n then 45 ∷ [] else [] in
    elim (put_chars (digits 32 size base ++ sign ++ 0 ∷ []) s) [
      | none ↦ none
      | some out ↦ some (reverse out)
    ]
