-- ===== src/Filters.antt =====
-- The programs of Userland/userCodeModule/userlib_so.c that stand behind a pipe: wc, cat and filter. What
-- their calls of `read` get is the argument `bytes`, one byte for each call, and the answer `at_end` of
-- the call behind these, which is not positive. The result is what they write to the screen, text by
-- text, up to the `exit_pcs(EXIT)` that ends them.
pub mod Lines
mod Tests
use tp2_so_2025q.Base.{
  ℕ, ◌+◌, ◌-◌, Bool, true, false, ◌||◌, Option, none, some, List, [], ◌∷◌, ◌++◌, ltb, ◌==◌,
  if◌then◌else◌, length, add32, sign_extend,
}
use tp2_so_2025q.Text.{codes}
use tp2_so_2025q.Text.Compare.{c_string}
use tp2_so_2025q.Userlib.{uint_to_base}

-- The size of the line buffers.
abbrev pub line_buffer_size : ℕ
line_buffer_size = 128

-- The text of one character, as `write_out` shows it.
unfoldable pub echo : ℕ → List ℕ
echo c = c_string (c ∷ 0 ∷ [])

-- The report of wc; `number_str` is the buffer for the number, and `none` a write past it.
unfoldable pub wc_report : List ℕ → ℕ → Option (List ℕ)
unfolding uint_to_base
wc_report number_str line_count = elim (uint_to_base (sign_extend line_count) number_str 10) [
  | none ↦ none
  | some (text, digits) ↦
      some ((10 ∷ codes "Cantidad de lineas: ") ++ c_string text ++ codes "." ++ 10 ∷ [])
]

unfoldable pub wc_loop : List ℕ → ℕ → List ℕ → ℕ → Option (List ℕ)
unfolding echo wc_report
wc_loop number_str line_count [] at_end =
    if at_end == 0 then wc_report number_str line_count else some []
wc_loop number_str line_count (c ∷ bytes) at_end =
    let next = if c == 10 then add32 line_count 1 else line_count in
    elim (wc_loop number_str next bytes at_end) [ none ↦ none | some out ↦ some (echo c ++ out) ]

unfoldable pub wc_dummy : Bool → List ℕ → List ℕ → ℕ → Option (List ℕ)
unfolding wc_loop
wc_dummy false number_str bytes at_end = some []
wc_dummy true number_str bytes at_end = wc_loop number_str 1 bytes at_end

-- The first `line_index` characters of `line_buffer` behind `line_index--`.
unfoldable pub drop_char : List ℕ → List ℕ
drop_char [] = []
drop_char (c ∷ []) = []
drop_char (c ∷ d ∷ line) = c ∷ drop_char (d ∷ line)

-- The same behind `line_buffer[line_index++] = c`, where there is room.
unfoldable pub add_char : List ℕ → ℕ → List ℕ
add_char line c = if ltb (length line) (line_buffer_size - 1) then line ++ c ∷ [] else line

-- The line behind a character of the input, of cat and of filter.
unfoldable pub next_line : List ℕ → ℕ → List ℕ
unfolding drop_char add_char
next_line line c = if c == 8 then drop_char line else if c == 10 then [] else add_char line c

-- What is written at a character, over the text of a whole line.
unfoldable pub on_char : (List ℕ → List ℕ) → List ℕ → ℕ → List ℕ
unfolding echo add_char
on_char show line c =
    if c == 8
    then if ltb 0 (length line) then 8 ∷ [] else []
    else echo c ++ (if c == 10 then show (add_char line c) else [])

-- At the end of the input the line that is not ended is written too.
unfoldable pub cat_loop : List ℕ → List ℕ → List ℕ
unfolding next_line on_char
cat_loop line [] = if ltb 0 (length line) then 10 ∷ c_string line ++ 10 ∷ [] else []
cat_loop line (c ∷ bytes) = on_char c_string line c ++ cat_loop (next_line line c) bytes

unfoldable pub cat_dummy : Bool → List ℕ → List ℕ
unfolding cat_loop
cat_dummy false bytes = []
cat_dummy true bytes = cat_loop [] bytes

unfoldable pub is_vowel : ℕ → Bool
is_vowel ch =
    ch == 97
    || ch == 101
    || ch == 105
    || ch == 111
    || ch == 117
    || ch == 65
    || ch == 69
    || ch == 73
    || ch == 79
    || ch == 85

-- The loop that fills `filtered_buffer`.
unfoldable pub vowels : List ℕ → List ℕ
unfolding is_vowel
vowels [] = []
vowels (ch ∷ line) = let rest = vowels line in if is_vowel ch then ch ∷ rest else rest

unfoldable pub filtered : List ℕ → List ℕ
unfolding vowels
filtered line = c_string (vowels line) ++ 10 ∷ []

unfoldable pub filter_loop : List ℕ → List ℕ → List ℕ
unfolding next_line on_char filtered
filter_loop line [] = if ltb 0 (length line) then filtered line else []
filter_loop line (c ∷ bytes) = on_char filtered line c ++ filter_loop (next_line line c) bytes

unfoldable pub filter_dummy : Bool → List ℕ → List ℕ
unfolding filter_loop
filter_dummy false bytes = []
filter_dummy true bytes = filter_loop [] bytes
