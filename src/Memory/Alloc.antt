-- ===== src/Memory/Alloc.antt =====
-- `alloc`: first fit, complete, and within the invariant.
use native.Mathlib.Decide.{dec_lt}
use tp2_so_2025q.Base.{
  ℕ, suc, ◌+◌, ◌-◌, ◌*◌, ◌^◌, ◌≤◌, ◌<◌, ◌≡◌, refl, ◌⊎◌, inl, inr, true, Option, none, some, arith,
  ltb, ltb→lt, ltb→le, Bool-cases, sub32,
}
use tp2_so_2025q.Memory.{
  Memory, total, search, alloc, blocks_needed, block_size, memory_start, take_blocks,
}
use tp2_so_2025q.Memory.Loops.{FreeRun, FirstFit, search-FirstFit}
use tp2_so_2025q.Memory.Count.{count_free-le}
use tp2_so_2025q.Memory.Invariant.{IsValid, take_blocks-IsValid, count_free-taken}

-- The sizes whose rounded number of blocks fits the `uint32_t`.
abbrev pub max_size : ℕ
max_size = (2 ^ 32 - 1) * 2 ^ 12

pub blocks_needed_lem :
    (size : ℕ)
    → 0 < size
    → size ≤ max_size
    → (size ≤ blocks_needed size * block_size)
      × (blocks_needed size * block_size < size + block_size)
unfolding blocks_needed
blocks_needed_lem size pos small = omega arith

-- A request that the allocator refuses, for there is no room.
abbrev pub NoRoom : Memory → ℕ → Type 0
NoRoom m n = (k : ℕ) → k + n ≤ total m → ¬ FreeRun m.blocks n k

-- The first run of `n` free blocks starts at `k`.
pub record Room (m : Memory) (n k : ℕ) : Type 0 where
  pub fits : k + n ≤ total m
  pub run : FreeRun m.blocks n k
  pub first : (c : ℕ) → c < k → ¬ FreeRun m.blocks n c

no_run_below :
    (m : Memory) (n c : ℕ) → IsValid m → 0 < n → c < m.first_free_index → ¬ FreeRun m.blocks n c
no_run_below m n c v pos h run = ground (arith, run c, v.lowest c h)

-- The search of `alloc` on a valid memory finds the first fit, or there is none.
found-Room :
    (m : Memory) (n : ℕ) (o : Option ℕ)
    → IsValid m
    → 0 < n
    → n ≤ total m
    → FirstFit m.blocks n (sub32 (total m) n) m.first_free_index o
    → ((o ≡ none) × NoRoom m n) ⊎ ((k : ℕ) × (o ≡ some k) × Room m n k)
found-Room m n none v pos fits h = inl (
  refl,
  λ k hk run. elim (dec_lt k m.first_free_index) [
    | yes lt ↦ no_run_below m n k v pos lt run
    | no ge ↦ h k (omega arith) (omega (arith, v.small)) run
  ],
)
found-Room m n (some k) v pos fits h = inr (
  k,
  refl,
  record {
    fits = omega (arith, v.small, h.1);
    run = h.2;
    first = λ c hc run. elim (dec_lt c m.first_free_index) [
      | yes lt ↦ no_run_below m n c v pos lt run
      | no ge ↦ h.3 c (omega arith) hc run
    ];
  },
)

alloc_search :
    (m : Memory) (n : ℕ)
    → IsValid m
    → 0 < n
    → n ≤ total m
    → let o = search (suc (total m)) m.blocks n (sub32 (total m) n) m.first_free_index in
      ((o ≡ none) × NoRoom m n) ⊎ ((k : ℕ) × (o ≡ some k) × Room m n k)
alloc_search m n v pos fits = found-Room m n _ v pos fits (
    search-FirstFit (suc (total m)) m.blocks n (sub32 (total m) n) m.first_free_index pos
      (omega (arith, v.small, v.index_in)))

-- The two outcomes of a call: NULL and nothing changed, or the first fit taken.
abbrev pub Outcome : Memory → ℕ → ℕ × Memory → Type 0
Outcome m n r =
    ((r ≡ (0, m)) × NoRoom m n)
    ⊎ ((k : ℕ) × (r ≡ (memory_start + k * block_size, take_blocks m n k)) × Room m n k)

count-NoRoom : (m : Memory) (n : ℕ) → IsValid m → 0 < n → m.free_blocks < n → NoRoom m n
count-NoRoom m n v pos h k fits run =
    absurd (omega (arith, v.counted, count_free-taken m.blocks n k pos fits run))

-- For a request of at least 1 byte and at most 2 ^ 32 - 1 blocks of 4 KB, on a valid and initialised
-- memory, `alloc` gives the first run of free blocks that is long enough, and NULL, changing
-- nothing, exactly when there is none.
pub alloc-Outcome :
    (size : ℕ) (m : Memory)
    → 0 < size
    → size ≤ max_size
    → IsValid m
    → m.is_initialized ≡ true
    → Outcome m (blocks_needed size) (alloc size m)
unfolding alloc
alloc-Outcome size m pos small v init =
    let n = blocks_needed size in
    let n_pos : 0 < n = omega (arith, blocks_needed_lem size pos small) in
    elim (Bool-cases (ltb m.free_blocks n)) [
      | inl over ↦ inl (ground arith, count-NoRoom m n v n_pos (ltb→lt m.free_blocks n over))
      | inr fits ↦
          elim (alloc_search m n v n_pos
            (omega (arith, ltb→le m.free_blocks n fits, v.counted, count_free-le m.blocks))) [
              | inl (e, none_left) ↦ inl (ground arith, none_left)
              | inr (k, e, room) ↦ inr (k, ground arith, room)
            ]
    ]

-- `alloc` of at least 1 byte and at most 2 ^ 32 - 1 blocks of 4 KB keeps the invariant of an
-- initialised memory, whether it gives a run or NULL.
pub alloc-IsValid :
    (size : ℕ) (m : Memory)
    → 0 < size
    → size ≤ max_size
    → IsValid m
    → m.is_initialized ≡ true
    → IsValid (alloc size m).1
alloc-IsValid size m pos small v init =
    let n = blocks_needed size in
    let n_pos : 0 < n = omega (arith, blocks_needed_lem size pos small) in
    elim (alloc-Outcome size m pos small v init) [
      | inl (e, _) ↦ rw e v
      | inr (k, e, room) ↦ rw e (take_blocks-IsValid m n k n_pos room.fits room.run v).0
    ]
