-- ===== src/Text.antt =====
-- Kernel/libs/lib_str.c. A string is the list of bytes from the pointer on; where the list ends
-- before a NUL the model reads one. A buffer that is written is the whole array, and a write past
-- its end is `none`.
pub mod Compare
pub mod Digits
pub mod Put
mod Tests
use Prim.Native.Char.{code}
use Prim.Native.String
use Prim.Native.String.{String}
use tp2_so_2025q.Base.{
  ℕ, zero, suc, ◌+◌, Bool, true, false, not, ◌&&◌, Option, none, some, List, [], ◌∷◌, ◌==◌,
  if◌then◌else◌, sub32,
}

-- The bytes of a literal.
abbrev pub codes : String → List ℕ
codes String.[] = []
codes (String.◌∷◌ c s) = code c ∷ codes s

-- The difference of the first bytes that differ, as an `int`.
unfoldable pub strcmp : List ℕ → List ℕ → ℕ
strcmp [] [] = 0
strcmp [] (b ∷ t) = sub32 0 b
strcmp (a ∷ s) [] = a
strcmp (a ∷ s) (b ∷ t) = if not (a == 0) && (a == b) then strcmp s t else sub32 a b

-- Strings are shorter than 2 ^ 31, so the counter does not wrap.
unfoldable pub strlen : List ℕ → ℕ
strlen [] = 0
strlen (c ∷ s) = if c == 0 then 0 else suc (strlen s)

cons_some : ℕ → Option (List ℕ) → Option (List ℕ)
cons_some c none = none
cons_some c (some s) = some (c ∷ s)

-- `dest` after `strcpy(dest, src)`.
unfoldable pub strcpy : List ℕ → List ℕ → Option (List ℕ)
unfolding cons_some
strcpy [] src = none
strcpy (d ∷ dest) [] = some (0 ∷ dest)
strcpy (d ∷ dest) (c ∷ src) =
    let rest = strcpy dest src in if c == 0 then some (0 ∷ dest) else cons_some c rest

-- `dest` after `strncpy(dest, src, n)`: at most `n` bytes, and a NUL behind them.
unfoldable pub strncpy : List ℕ → List ℕ → ℕ → Option (List ℕ)
unfolding cons_some
strncpy [] src n = none
strncpy (d ∷ dest) src zero = some (0 ∷ dest)
strncpy (d ∷ dest) [] (suc n) = some (0 ∷ dest)
strncpy (d ∷ dest) (c ∷ src) (suc n) =
    let rest = strncpy dest src n in if c == 0 then some (0 ∷ dest) else cons_some c rest

-- `dest` after `strcat(dest, src)`: the walk to its NUL, then the copy.
unfoldable pub strcat : List ℕ → List ℕ → Option (List ℕ)
unfolding cons_some strcpy
strcat [] src = none
strcat (d ∷ dest) src =
    let rest = strcat dest src in if d == 0 then strcpy (d ∷ dest) src else cons_some d rest

-- `dest` after `strncat(dest, src, n)`. The copy stops at `n` bytes or at a NUL, and writes a NUL.
unfoldable pub strncat : List ℕ → List ℕ → ℕ → Option (List ℕ)
unfolding cons_some strncpy
strncat [] src n = none
strncat (d ∷ dest) src n =
    let rest = strncat dest src n in if d == 0 then strncpy (d ∷ dest) src n else cons_some d rest
