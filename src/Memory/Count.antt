-- ===== src/Memory/Count.antt =====
-- How many blocks of the array are free.
use tp2_so_2025q.Base.{
  ℕ, zero, suc, ◌+◌, ◌≤◌, ◌<◌, ◌≡◌, false, List, [], ◌∷◌, arith, if◌then◌else◌, length, set,
  length-set,
}
use tp2_so_2025q.Memory.Entries.{Block, Status, block, is_free, contiguous_at, vacant}
use tp2_so_2025q.Memory.{mark_used, mark_free}
use tp2_so_2025q.Memory.Loops.{entry-set, free_at, FreeRun}

unfoldable pub count_free : List Block → ℕ
count_free [] = 0
count_free (b ∷ bs) = (if is_free b.status then 1 else 0) + count_free bs

pub count_free-le : (bs : List Block) → count_free bs ≤ length bs
unfolding count_free
count_free-le [] = omega arith
count_free-le (b ∷ bs) = ground (arith, count_free-le bs)

-- A write changes the count by what it changes in the one status.
pub count_free-set :
    (bs : List Block) (j : ℕ) (v : Block)
    → j < length bs
    → count_free (set bs j v) + (if free_at bs j then 1 else 0)
      ≡ count_free bs + (if is_free v.status then 1 else 0)
unfolding count_free
count_free-set [] j v h = absurd (omega arith)
count_free-set (b ∷ bs) zero v h = omega arith
count_free-set (b ∷ bs) (suc j) v h = ground (arith, count_free-set bs j v)

pub count_free-mark_used :
    (r : ℕ) (bs : List Block) (j : ℕ)
    → j + r ≤ length bs
    → FreeRun bs r j
    → count_free (mark_used r bs j) + r ≡ count_free bs
unfolding mark_used
count_free-mark_used zero bs j h run = omega arith
count_free-mark_used (suc r) bs j h run =
    let w : Block = block Status.used (contiguous_at bs j) in
    ground (
      arith,
      run j,
      count_free-set bs j w,
      length-set bs j w,
      count_free-mark_used r (set bs j w) (suc j) (omega (arith, length-set bs j w))
          (λ c lo hi. ground (arith, run c, entry-set bs j c w)),
    )

-- `r` used blocks from `j` on.
abbrev pub UsedRun : List Block → ℕ → ℕ → Type 0
UsedRun bs r j = (c : ℕ) → j ≤ c → c < j + r → free_at bs c ≡ false

pub count_free-mark_free :
    (r : ℕ) (bs : List Block) (j : ℕ)
    → j + r ≤ length bs
    → UsedRun bs r j
    → count_free (mark_free r bs j) ≡ count_free bs + r
unfolding mark_free
count_free-mark_free zero bs j h run = omega arith
count_free-mark_free (suc r) bs j h run = ground (
  arith,
  run j,
  count_free-set bs j vacant,
  length-set bs j vacant,
  count_free-mark_free r (set bs j vacant) (suc j) (omega (arith, length-set bs j vacant))
      (λ c lo hi. ground (arith, run c, entry-set bs j c vacant)),
)
