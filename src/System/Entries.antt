-- ===== src/System/Entries.antt =====
-- The process table under reads and writes.
use tp2_so_2025q.Base.{
  ℕ, zero, suc, ◌≡◌, ◌<◌, ◌&&◌, Option, some, List, [], ◌∷◌, arith, ltb, ◌==◌, if◌then◌else◌,
  length, set,
}
use tp2_so_2025q.System.{entry}
use tp2_so_2025q.System.Process.{Pcb}

pub entry-set :
    (t : List (Option Pcb)) (i j : ℕ) (p : Option Pcb)
    → entry (set t i p) j ≡ (if i == j && ltb i (length t) then p else entry t j)
entry-set [] i j p = ground arith
entry-set (q ∷ t) zero zero p = ground arith
entry-set (q ∷ t) zero (suc j) p = ground arith
entry-set (q ∷ t) (suc i) zero p = ground arith
entry-set (q ∷ t) (suc i) (suc j) p = ground (arith, entry-set t i j p)

pub entry-lt : (t : List (Option Pcb)) (i : ℕ) (p : Pcb) → entry t i ≡ some p → i < length t
entry-lt [] i p e = ground arith
entry-lt (q ∷ t) zero p e = omega arith
entry-lt (q ∷ t) (suc i) p e = omega (arith, entry-lt t i p e)
