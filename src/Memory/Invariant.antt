-- ===== src/Memory/Invariant.antt =====
-- The representation invariant of memory_manager.c, over the entries of `block_array`.
use tp2_so_2025q.Base.{
  ℕ, suc, ◌+◌, ◌-◌, ◌^◌, ◌≤◌, ◌<◌, ◌≡◌, ◌≢◌, ◌∙◌, inl, inr, true, false, ◌&&◌, none, some, List,
  arith, ltb, leb, ◌==◌, if◌then◌else◌, Bool-cases, Option-cases, length, set, length-set,
  get_or_beyond, sub32,
}
use native.Mathlib.Decide.{dec_lt}
use tp2_so_2025q.Memory.Entries.{Block, Status, block, contiguous_at, outside}
use tp2_so_2025q.Memory.{Memory, total, first_free, reset_first_free_index, taken, take_blocks}
use tp2_so_2025q.Memory.Loops.{
  entry, free_at, FreeRun, entry-set, entry-mark_used, length-mark_used, first_free-IsFirstFree,
  IsFirstFree,
}
use tp2_so_2025q.Memory.Count.{count_free, count_free-le, count_free-mark_used, count_free-set}

-- The part of the invariant that the entries alone decide. An entry with `contiguous_blocks` n > 0
-- heads a run of n used blocks inside the array, and no other run starts in it; a free block heads
-- no run.
pub record AreRuns (bs : List Block) : Type 0 where
  pub cleared : (j : ℕ) → free_at bs j ≡ true → contiguous_at bs j ≡ 0
  pub held : (i j : ℕ) → i ≤ j → j < i + contiguous_at bs i → free_at bs j ≡ false
  pub inside : (i : ℕ) → contiguous_at bs i ≢ 0 → i + contiguous_at bs i ≤ length bs
  pub apart : (i j : ℕ) → i < j → j < i + contiguous_at bs i → contiguous_at bs j ≡ 0

-- `lowest`: no block below `first_free_index` is free. An address of the array fits 32 bits.
pub record IsValid (m : Memory) : Type 0 where
  pub runs : AreRuns m.blocks
  pub counted : m.free_blocks ≡ count_free m.blocks
  pub lowest : (j : ℕ) → j < m.first_free_index → free_at m.blocks j ≡ false
  pub index_in : m.first_free_index < total m
  pub small : total m < 2 ^ 20

pub length-taken : (bs : List Block) (n i : ℕ) → length (taken bs n i) ≡ length bs
unfolding taken
length-taken bs n i = length-mark_used (n - 1) _ (suc i) ∙ length-set bs i _

-- The head of the run holds its length, the others are used, and all else is as before.
pub entry-taken :
    (bs : List Block) (n i k : ℕ)
    → 0 < n
    → i + n ≤ length bs
    → entry (taken bs n i) k ≡ (
        if k == i
        then block Status.used n
        else if leb i k && ltb k (i + n)
        then block Status.used (contiguous_at bs k)
        else entry bs k)
unfolding taken
entry-taken bs n i k pos fits =
    let w : Block = block Status.used n in
    ground (arith, entry-mark_used (n - 1) (set bs i w) (suc i) k, entry-set bs i k w)

pub count_free-taken :
    (bs : List Block) (n i : ℕ)
    → 0 < n
    → i + n ≤ length bs
    → FreeRun bs n i
    → count_free (taken bs n i) + n ≡ count_free bs
unfolding taken
count_free-taken bs n i pos fits run =
    let w : Block = block Status.used n in
    omega (
      arith,
      count_free-mark_used (n - 1) (set bs i w) (suc i) (omega (arith, length-set bs i w))
          (λ c lo hi. ground (arith, run c, entry-set bs i c w)),
      at_head,
    )
  where
    at_head : count_free (set bs i (block Status.used n)) + 1 ≡ count_free bs
    at_head = ground (arith, count_free-set bs i (block Status.used n), run i)

pub taken-AreRuns :
    (bs : List Block) (n i : ℕ)
    → 0 < n
    → i + n ≤ length bs
    → FreeRun bs n i
    → AreRuns bs
    → AreRuns (taken bs n i)
taken-AreRuns bs n i pos fits run v = record {
  cleared = λ j h. ground (arith, e j, v.cleared j);
  held = λ a b lo hi. ground (arith, e a, e b, v.held a b, run b, v.cleared a, run a, v.cleared b);
  inside = λ a h. ground (arith, e a, v.inside a, length-taken bs n i, run a, v.cleared a);
  apart = λ a b lo hi.
      ground
        (arith, e a, e b, v.apart a b, run a, v.cleared a, run b, v.cleared b, v.held a i, run i);
}
  where
    e :
        (k : ℕ)
        → entry (taken bs n i) k ≡ (
            if k == i
            then block Status.used n
            else if leb i k && ltb k (i + n)
            then block Status.used (contiguous_at bs k)
            else entry bs k)
    e k = entry-taken bs n i k pos fits

pub free_at-lt : (bs : List Block) (j : ℕ) → free_at bs j ≡ true → j < length bs
free_at-lt bs j h = elim (dec_lt j (length bs)) [
  | yes lt ↦ lt
  | no ge ↦ absurd (ground (arith, get_or_beyond bs j outside))
]

-- Whatever the index was, `reset_first_free_index` makes it one below which nothing is free.
pub reset-IsValid :
    (m : Memory)
    → AreRuns m.blocks
    → m.free_blocks ≡ count_free m.blocks
    → m.first_free_index < total m
    → total m < 2 ^ 20
    → IsValid (reset_first_free_index m)
unfolding reset_first_free_index
reset-IsValid m runs counted index_in small = elim (Option-cases (first_free m.blocks 0)) [
  | inl e ↦
      let all_used : IsFirstFree m.blocks none = rw e at (first_free-IsFirstFree m.blocks) in
      rw (e, reset_first_free_index)
        (record {
          runs = runs;
          counted = counted;
          lowest = λ j h. all_used j;
          index_in = index_in;
          small = small;
        })
  | inr (k, e) ↦
      let first : IsFirstFree m.blocks (some k) = rw e at (first_free-IsFirstFree m.blocks) in
      rw (e, reset_first_free_index)
        (record {
          runs = runs;
          counted = counted;
          lowest = first.1;
          index_in = free_at-lt m.blocks k first.0;
          small = small;
        })
]

-- What `reset_first_free_index` leaves alone.
pub reset_keeps :
    (m : Memory)
    → ((reset_first_free_index m).blocks ≡ m.blocks)
      × ((reset_first_free_index m).free_blocks ≡ m.free_blocks)
unfolding reset_first_free_index
reset_keeps m = ground arith

pub blocks-take_blocks : (m : Memory) (n i : ℕ) → (take_blocks m n i).blocks ≡ taken m.blocks n i
unfolding take_blocks
blocks-take_blocks m n i = ground (arith, reset_keeps (record m { blocks = taken m.blocks n i }))

pub reset_free_blocks :
    (m : Memory) (c : ℕ)
    → record (reset_first_free_index m) { free_blocks = c }
      ≡ reset_first_free_index (record m { free_blocks = c })
unfolding reset_first_free_index
reset_free_blocks m c = ground arith

-- Taking a run of free blocks keeps the invariant and lowers the count by their number.
pub take_blocks-IsValid :
    (m : Memory) (n i : ℕ)
    → 0 < n
    → i + n ≤ total m
    → FreeRun m.blocks n i
    → IsValid m
    → IsValid (take_blocks m n i) × ((take_blocks m n i).free_blocks + n ≡ m.free_blocks)
unfolding take_blocks
take_blocks-IsValid m n i pos fits run v =
    let bs = taken m.blocks n i in
    let m' = record m { blocks = bs; free_blocks = sub32 m.free_blocks n } in
    let count : sub32 m.free_blocks n + n ≡ m.free_blocks = omega (
      arith,
      v.counted,
      v.small,
      count_free-le m.blocks,
      count_free-taken m.blocks n i pos fits run,
    ) in
    let runs : AreRuns bs = taken-AreRuns m.blocks n i pos fits run v.runs in
    let counted : sub32 m.free_blocks n ≡ count_free bs =
      omega (arith, count, v.counted, count_free-taken m.blocks n i pos fits run) in
    let size : length bs ≡ total m = length-taken m.blocks n i in
    elim (Bool-cases (free_at bs m.first_free_index)) [
      | inl keep ↦ (
        rw (keep, take_blocks)
            (record {
              runs = runs;
              counted = counted;
              lowest = λ j h. ground (arith, entry-taken m.blocks n i j pos fits, v.lowest j h);
              index_in = omega (arith, v.index_in);
              small = omega (arith, v.small);
            }),
        count,
      )
      | inr moved ↦ (
        rw (moved, take_blocks, reset_free_blocks)
            (reset-IsValid m' runs counted (omega (arith, v.index_in)) (omega (arith, v.small))),
        count,
      )
    ]
