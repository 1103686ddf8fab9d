-- ===== src/Memory/RoundTrip.antt =====
-- `free` after `alloc`, the start from `create_mm`, and the report of `status_count`.
use tp2_so_2025q.Base.{
  ℕ, zero, suc, ◌+◌, ◌-◌, ◌*◌, ◌^◌, ◌≤◌, ◌<◌, ◌≡◌, refl, ap, ◌≢◌, ◌∙◌, inl, inr, true, false, ◌&&◌,
  some, List, [], ◌∷◌, arith, ltb, leb, ◌==◌, if◌then◌else◌, length, to_int, list_ext,
}
use tp2_so_2025q.Memory.Entries.{Block, Status, block, contiguous_at, vacant, outside}
use tp2_so_2025q.Memory.{
  Memory, total, alloc, free, blocks_needed, block_size, block_index, memory_start, take_blocks,
  create_mm, clear_blocks, status_count,
}
use tp2_so_2025q.Memory.Loops.{entry}
use tp2_so_2025q.Memory.Count.{count_free, count_free-le}
use tp2_so_2025q.Memory.Invariant.{
  AreRuns, IsValid, take_blocks-IsValid, entry-taken, length-taken, blocks-take_blocks,
}
use tp2_so_2025q.Memory.Alloc.{Room, alloc-Outcome, max_size, blocks_needed_lem}
use tp2_so_2025q.Memory.Free.{Freed, free_block, block_index_head}

-- A block is what its two fields are.
block_eq : (b c : Block) → b.status ≡ c.status → b.contiguous_blocks ≡ c.contiguous_blocks → b ≡ c
block_eq b c p q = ground arith

-- Releasing the run just taken at `k` brings every entry back.
entries_back :
    (m m' : Memory) (n k : ℕ)
    → 0 < n
    → IsValid m
    → Room m n k
    → Freed (take_blocks m n k) k m'
    → m'.blocks ≡ m.blocks
entries_back m m' n k pos v room freed = list_ext outside m'.blocks m.blocks size same
  where
    size : length m'.blocks ≡ length m.blocks
    size = freed.size ∙ (ap length (blocks-take_blocks m n k) ∙ length-taken m.blocks n k)

    at :
        (j : ℕ)
        → entry (take_blocks m n k).blocks j ≡ (
            if j == k
            then block Status.used n
            else if leb k j && ltb j (k + n)
            then block Status.used (contiguous_at m.blocks j)
            else entry m.blocks j)
    at j = rw (blocks-take_blocks m n k) (entry-taken m.blocks n k j pos room.fits)

    same : (j : ℕ) → entry m'.blocks j ≡ entry m.blocks j
    same j =
        ground (arith, at j, at k, freed.released j, freed.others j, room.run j, v.runs.cleared j)

free_taken :
    (m : Memory) (n k : ℕ)
    → 0 < n
    → IsValid m
    → Room m n k
    → (m' : Memory) × (free (memory_start + k * block_size) (take_blocks m n k) ≡ some m')
      × (m'.blocks ≡ m.blocks)
      × (m'.free_blocks ≡ m.free_blocks)
      × IsValid m'
free_taken m n k pos v room =
    let took = take_blocks-IsValid m n k pos room.fits room.run v in
    let size : total (take_blocks m n k) ≡ total m =
      ap length (blocks-take_blocks m n k) ∙ length-taken m.blocks n k in
    let index : block_index (memory_start + k * block_size) ≡ k =
      block_index_head k (omega (arith, room.fits, v.small)) in
    let head : contiguous_at (take_blocks m n k).blocks k ≡ n =
      rw (blocks-take_blocks m n k) (ground (arith, entry-taken m.blocks n k k pos room.fits)) in
    let (m', e, freed) =
      free_block (memory_start + k * block_size) k (take_blocks m n k) index (omega arith)
        (omega (arith, size, room.fits)) took.0 in
    (
      m',
      e,
      entries_back m m' n k pos v room freed,
      omega (arith, freed.count, head, took.1),
      freed.valid,
    )

-- Freeing what `alloc` has just given, for a request of at least 1 byte and at most 2 ^ 32 - 1
-- blocks of 4 KB on a valid and initialised memory, succeeds and restores every block and the free
-- count.
pub free-alloc :
    (size : ℕ) (m : Memory)
    → 0 < size
    → size ≤ max_size
    → IsValid m
    → m.is_initialized ≡ true
    → (alloc size m).0 ≢ 0
    → (m' : Memory) × (free (alloc size m).0 (alloc size m).1 ≡ some m')
      × (m'.blocks ≡ m.blocks)
      × (m'.free_blocks ≡ m.free_blocks)
      × IsValid m'
free-alloc size m pos small v init ne = elim (alloc-Outcome size m pos small v init) [
  | inl (e, _) ↦ absurd (ne (ap (λ (r : ℕ × Memory). r.0) e))
  | inr (k, e, room) ↦
      rw e (
        free_taken m (blocks_needed size) k (omega (arith, blocks_needed_lem size pos small)) v
          room)
]

entry-clear_blocks :
    (bs : List Block) (j : ℕ)
    → entry (clear_blocks bs) j ≡ (if ltb j (length bs) then vacant else outside)
unfolding clear_blocks
entry-clear_blocks [] j = ground arith
entry-clear_blocks (b ∷ bs) zero = ground arith
entry-clear_blocks (b ∷ bs) (suc j) = ground (arith, entry-clear_blocks bs j)

clear_blocks_size :
    (bs : List Block)
    → (length (clear_blocks bs) ≡ length bs) × (count_free (clear_blocks bs) ≡ length bs)
unfolding clear_blocks count_free
clear_blocks_size [] = (refl, refl)
clear_blocks_size (b ∷ bs) = ground (arith, clear_blocks_size bs)

-- The first `create_mm` makes a valid memory, all of it free; a second call changes nothing.
pub create_mm-IsValid :
    (m : Memory)
    → m.is_initialized ≡ false
    → m.first_free_index ≡ 0
    → 0 < total m
    → total m < 2 ^ 20
    → IsValid (create_mm m)
      × ((create_mm m).free_blocks ≡ total m)
      × (create_mm (create_mm m) ≡ create_mm m)
unfolding create_mm
create_mm-IsValid m fresh zero_index pos small =
    let size = clear_blocks_size m.blocks in
    let at = entry-clear_blocks m.blocks in
    let start : Memory = record m {
      is_initialized = true;
      blocks = clear_blocks m.blocks;
      free_blocks = to_int (total m);
    } in
    let runs : AreRuns (clear_blocks m.blocks) = record {
      cleared = λ j h. ground (arith, at j);
      held = λ i j lo hi. ground (arith, at i);
      inside = λ i h. ground (arith, at i);
      apart = λ i j lo hi. ground (arith, at j);
    } in
    let valid : IsValid start = record {
      runs = runs;
      counted = omega (arith, size);
      lowest = λ j h. absurd (omega arith);
      index_in = omega (arith, size);
      small = omega (arith, size);
    } in
    rw fresh (valid, omega arith, refl)

-- On a valid memory the report does not wrap: used and free bytes add up to the total, and so do
-- the blocks.
pub status_count-adds_up :
    (m : Memory)
    → IsValid m
    → status_count m
      ≡ total m * block_size
        ∷ (total m - count_free m.blocks) * block_size
        ∷ count_free m.blocks * block_size
        ∷ block_size
        ∷ total m
        ∷ (total m - count_free m.blocks)
        ∷ []
unfolding status_count
status_count-adds_up m v = ground (arith, v.counted, v.small, count_free-le m.blocks)
