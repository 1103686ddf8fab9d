-- ===== src/Shell.antt =====
-- Userland/userCodeModule/shell.c: a line of input, its words and the commands that it names. A
-- pointer into a buffer is an offset, and a string is the bytes from there on.
pub mod Words
pub mod Squeeze
pub mod Arguments
pub mod Line
mod Tests
use tp2_so_2025q.Base.{
  ℕ, zero, suc, ◌+◌, ◌-◌, Bool, true, false, not, ◌&&◌, ◌||◌, Option, none, some, List, [], ◌∷◌,
  map, ltb, ◌==◌, if◌then◌else◌, length, get_or, set, drop,
}
use tp2_so_2025q.Text.{codes, strcmp}
use tp2_so_2025q.Text.Compare.{c_string}

abbrev pub max_args : ℕ
max_args = 10

-- The offset of the first `c`.
unfoldable pub strchr : List ℕ → ℕ → Option ℕ
strchr [] c = if c == 0 then some 0 else none
strchr (x ∷ s) c =
    let rest = strchr s c in
    if x == 0
    then if c == 0 then some 0 else none
    else if x == c
    then some 0
    else elim rest [ none ↦ none | some p ↦ some (suc p) ]

unfoldable pub is_blank : ℕ → Bool
is_blank c = (c == 32) || (c == 9) || (c == 10)

-- The loop of `remove_extra_spaces` with the rounds left: the buffer and `j` behind it.
unfoldable pub squeeze_loop : ℕ → List ℕ → ℕ → ℕ → Bool → List ℕ × ℕ
unfolding is_blank
squeeze_loop zero s i j in_space = (s, j)
squeeze_loop (suc r) s i j in_space =
    let c = get_or s i 0 in
    let skip = squeeze_loop r s (suc i) j true in
    let space = squeeze_loop r (set s j 32) (suc i) (suc j) true in
    let letter = squeeze_loop r (set s j c) (suc i) (suc j) false in
    if c == 0 then (s, j) else if is_blank c then if in_space then skip else space else letter

unfoldable pub end_squeezed : List ℕ → ℕ → List ℕ
end_squeezed s j = set s (if not (j == 0) && (get_or s (j - 1) 0 == 32) then j - 1 else j) 0

-- A round for each byte of the buffer is enough.
unfoldable pub remove_extra_spaces : List ℕ → List ℕ
unfolding squeeze_loop end_squeezed
remove_extra_spaces s = let (s', j) = squeeze_loop (length s) s 0 0 true in end_squeezed s' j

-- A byte kept in front of the buffer that the loop leaves: the pointers move up.
unfoldable pub put_before : ℕ → List ℕ × List ℕ → List ℕ × List ℕ
put_before c (s, ps) = (c ∷ s, map suc ps)

unfoldable pub point_here : List ℕ × List ℕ → List ℕ × List ℕ
point_here (s, ps) = (s, 0 ∷ ps)

-- The loop of `parse_arguments` from a byte on, `gap` on the way of the inner loop over spaces: the
-- buffer that it leaves and the pointers that it adds.
unfoldable pub args_loop : Bool → ℕ → List ℕ → List ℕ × List ℕ
unfolding put_before point_here
args_loop gap argc [] = ([], [])
args_loop false argc (c ∷ s) =
    let rest = args_loop (c == 32) argc s in
    if (c == 0) || not (ltb argc (max_args - 1))
    then (c ∷ s, [])
    else put_before (if c == 32 then 0 else c) rest
args_loop true argc (c ∷ s) =
    let rest = args_loop (c == 32) (if c == 32 then argc else suc argc) s in
    if c == 0
    then (c ∷ s, [])
    else if c == 32
    then put_before c rest
    else point_here (put_before c rest)

-- The buffer and `argv`; `argc` is the length of `argv`.
unfoldable pub parse_arguments : Option (List ℕ) → List ℕ × List ℕ
unfolding args_loop point_here
parse_arguments none = ([], [])
parse_arguments (some []) = ([], [])
parse_arguments (some (c ∷ s)) =
    if c == 0 then (c ∷ s, []) else point_here (args_loop false 1 (c ∷ s))

-- The strings that `argv` points to.
unfoldable pub strings_at : List ℕ → List ℕ → List (List ℕ)
strings_at s [] = []
strings_at s (p ∷ ps) = c_string (drop p s) ∷ strings_at s ps

unfoldable pub skip_spaces : List ℕ → List ℕ
skip_spaces [] = []
skip_spaces (c ∷ s) = let rest = skip_spaces s in if c == 32 then rest else c ∷ s

-- The buffer with the first space cut out, for the name that stands before it.
unfoldable pub cut_at : List ℕ → Option ℕ → List ℕ
cut_at b none = b
cut_at b (some p) = set b p 0

-- `args_string`: NULL, or what stands behind the spaces.
unfoldable pub args_behind : List ℕ → Option ℕ → Option (List ℕ)
unfolding skip_spaces
args_behind b none = none
args_behind b (some p) = some (skip_spaces (drop (suc p) b))

unfoldable pub argument_strings : Option (List ℕ) → List (List ℕ)
unfolding parse_arguments strings_at
argument_strings args = let (buf, argv) = parse_arguments args in strings_at buf argv

-- The command's name and its arguments in a line without a pipe.
unfoldable pub split_command : List ℕ → List ℕ × List (List ℕ)
unfolding remove_extra_spaces argument_strings args_behind cut_at strchr
split_command buffer =
    let b = remove_extra_spaces buffer in
    let first_space = strchr b 32 in
    (c_string (cut_at b first_space), argument_strings (args_behind b first_space))
