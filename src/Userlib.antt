-- ===== src/Userlib.antt =====
-- Userland/userCodeModule/userlib.c: numbers and their texts. `uintToBase` stands in
-- Kernel/libs/lib_math.c and Kernel/naiveConsole.c with the same lines. And rand.c beside it.
pub mod Decimal
mod Tests
use tp2_so_2025q.Base.{
  ℕ, zero, suc, ◌+◌, ◌-◌, ◌*◌, ◌/◌, ◌%◌, ◌^◌, Bool, true, false, not, ◌&&◌, Option, none, some,
  List, [], ◌∷◌, ◌++◌, ltb, leb, ◌==◌, if◌then◌else◌, length, neg, is_negative, to_int,
}
use tp2_so_2025q.Text.Digits.{digits, put_chars, swap_ends}

-- It counts the NUL, too.
unfoldable pub strlen : List ℕ → ℕ
strlen [] = 1
strlen (c ∷ s) = let rest = strlen s in if c == 0 then 1 else suc rest

-- The buffer and the number of digits. 64 rounds are enough for a `uint64_t` in any base from 2 on.
unfoldable pub uint_to_base : ℕ → List ℕ → ℕ → Option (List ℕ × ℕ)
unfolding digits put_chars swap_ends
uint_to_base value buffer base =
    let cs = digits 64 value base in
    elim (put_chars (cs ++ 0 ∷ []) buffer) [
      | none ↦ none
      | some out ↦ some (swap_ends (length cs) out 0 (length cs - 1), length cs)
    ]

unfoldable pub is_digit : ℕ → Bool
is_digit c = leb 48 c && leb c 57

-- `is_digit_str` of shell.c, of a string that is not NULL.
unfoldable pub all_digits : List ℕ → Bool
unfolding is_digit
all_digits [] = true
all_digits (c ∷ s) = let rest = all_digits s in if c == 0 then true else is_digit c && rest

unfoldable pub is_digit_str : List ℕ → Bool
unfolding all_digits
is_digit_str [] = false
is_digit_str (c ∷ s) = if c == 0 then false else all_digits (c ∷ s)

-- What `char_to_int` does: it returns, or ends the process behind a message.
pub data Parsed : Type 0 where
  number : ℕ → Parsed
  is_empty : Parsed
  no_number : Parsed
  too_large : Parsed

-- The loop. The guard compares as `uint32_t`, since `UINT32_MAX - digit` is one; the result is an `int`.
unfoldable pub char_to_int_loop : ℕ → List ℕ → Parsed
unfolding is_digit
char_to_int_loop result [] = number result
char_to_int_loop result (c ∷ s) =
    let digit = c - 48 in
    let rest = char_to_int_loop (to_int (result * 10 + digit)) s in
    if c == 0
    then number result
    else if not (is_digit c)
    then no_number
    else if ltb ((2 ^ 32 - 1 - digit) / 10) result
    then too_large
    else rest

unfoldable pub char_to_int : List ℕ → Parsed
unfolding char_to_int_loop
char_to_int [] = is_empty
char_to_int (c ∷ s) = if c == 0 then is_empty else char_to_int_loop 0 (c ∷ s)

-- The characters of `temp` with the rounds left: the last digit first.
unfoldable pub temp_digits : ℕ → ℕ → List ℕ
temp_digits zero value = []
temp_digits (suc r) value =
    let rest = temp_digits r (value / 10) in
    (48 + value % 10) ∷ (if ltb 0 (value / 10) then rest else [])

-- `temp` from its end.
unfoldable pub backwards : List ℕ → List ℕ → List ℕ
backwards [] behind = behind
backwards (c ∷ cs) behind = backwards cs (c ∷ behind)

-- The buffer behind `int_to_char`. The `int` is above -2 ^ 31, so it has at most ten digits.
unfoldable pub int_to_char : ℕ → List ℕ → Option (List ℕ)
unfolding temp_digits backwards put_chars
int_to_char value str =
    let size = if is_negative value then to_int (neg value) else value in
    let sign = if is_negative value then 45 ∷ [] else [] in
    put_chars (backwards (temp_digits 10 size ++ sign) (0 ∷ [])) str

-- The next state of the generator, and the number.
unfoldable pub rand : ℕ → ℕ × ℕ
rand next =
    let next' = (next * 1103515245 + 12345) % 2 ^ 64 in (next', next' / 65536 % 2 ^ 32 % 32768)

-- The ticks of the time on the clock.
unfoldable pub time : ℕ → ℕ → ℕ → ℕ
time hrs min seg = (hrs * (18 * 60 * 60) + min * (18 * 60) + seg * 18) % 2 ^ 32
