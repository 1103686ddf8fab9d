-- ===== src/Memory/Free.antt =====
-- `free`: what it releases, and that it undoes `alloc`.
use tp2_so_2025q.Base.{
  ℕ, ◌+◌, ◌*◌, ◌^◌, ◌≤◌, ◌<◌, ◌≡◌, refl, ap, subst, ◌≢◌, ◌∙◌, ◌⊎◌, inl, inr, ◌&&◌, some, List,
  arith, ltb, leb, ◌==◌, if◌then◌else◌, Bool-cases, length, add32,
}
use tp2_so_2025q.Memory.Entries.{Block, contiguous_at, vacant}
use tp2_so_2025q.Memory.{
  Memory, total, free, block_size, block_index, memory_start, mark_free, reset_first_free_index,
}
use tp2_so_2025q.Memory.Loops.{entry, entry-mark_free, length-mark_free}
use tp2_so_2025q.Memory.Count.{count_free, count_free-le, count_free-mark_free}
use tp2_so_2025q.Memory.Invariant.{AreRuns, IsValid, reset-IsValid, reset_keeps, reset_free_blocks}

-- Any address inside the block `i` has index `i`.
pub block_index_lem :
    (i offset : ℕ)
    → i < 2 ^ 20
    → offset < block_size
    → block_index (memory_start + i * block_size + offset) ≡ i
unfolding block_index
block_index_lem i offset h h' = omega arith

pub block_index_head : (i : ℕ) → i < 2 ^ 20 → block_index (memory_start + i * block_size) ≡ i
unfolding block_index
block_index_head i h = omega arith

mark_free-AreRuns :
    (bs : List Block) (i : ℕ) → AreRuns bs → AreRuns (mark_free (contiguous_at bs i) bs i)
mark_free-AreRuns bs i v = record {
  cleared = λ j h. ground (arith, e j, v.cleared j);
  held = λ a b lo hi. ground (arith, e a, e b, v.held a b, v.apart a i, v.inside i);
  inside = λ a h. ground (arith, e a, v.inside a, length-mark_free (contiguous_at bs i) bs i);
  apart = λ a b lo hi. ground (arith, e a, e b, v.apart a b);
}
  where
    e :
        (k : ℕ)
        → entry (mark_free (contiguous_at bs i) bs i) k ≡ (
            if leb i k && (ltb k (i + contiguous_at bs i) && ltb k (length bs))
            then vacant
            else entry bs k)
    e k = entry-mark_free (contiguous_at bs i) bs i k

-- What `free` leaves when the address lies in the block `i`: every block of the run that `i` heads is
-- vacant, the others are as before, and the free count has grown by the length of the run.
pub record Freed (m : Memory) (i : ℕ) (m' : Memory) : Type 0 where
  pub valid : IsValid m'
  pub size : total m' ≡ total m
  pub released : (k : ℕ) → i ≤ k → k < i + contiguous_at m.blocks i → entry m'.blocks k ≡ vacant
  pub others :
      (k : ℕ) → (k < i) ⊎ (i + contiguous_at m.blocks i ≤ k) → entry m'.blocks k ≡ entry m.blocks k
  pub count : m'.free_blocks ≡ m.free_blocks + contiguous_at m.blocks i
  pub initialized : m'.is_initialized ≡ m.is_initialized

free_at_zero : (m : Memory) (i : ℕ) → IsValid m → contiguous_at m.blocks i ≡ 0 → Freed m i m
free_at_zero m i v e = record {
  valid = v;
  size = refl;
  released = λ k lo hi. absurd (omega arith);
  others = λ k h. refl;
  count = omega arith;
  initialized = refl;
}

abbrev released_memory : Memory → ℕ → Memory
released_memory m i = record m {
  blocks = mark_free (contiguous_at m.blocks i) m.blocks i;
  free_blocks = add32 m.free_blocks (contiguous_at m.blocks i);
}

reset-initialized : (m : Memory) → (reset_first_free_index m).is_initialized ≡ m.is_initialized
unfolding reset_first_free_index
reset-initialized m = ground arith

released-Freed :
    (m : Memory) (i : ℕ)
    → IsValid m
    → contiguous_at m.blocks i ≢ 0
    → Freed m i (reset_first_free_index (released_memory m i))
released-Freed m i v ne =
    let n = contiguous_at m.blocks i in
    let bs = mark_free n m.blocks i in
    let size : length bs ≡ total m = length-mark_free n m.blocks i in
    let in_array : i + n ≤ total m = v.runs.inside i ne in
    let grown : count_free bs ≡ count_free m.blocks + n =
      count_free-mark_free n m.blocks i in_array (λ c lo hi. v.runs.held i c lo hi) in
    let count : add32 m.free_blocks n ≡ m.free_blocks + n =
      omega (arith, v.counted, v.small, count_free-le bs) in
    let kept = reset_keeps (released_memory m i) in
    record {
      valid =
          reset-IsValid (released_memory m i) (mark_free-AreRuns m.blocks i v.runs)
            (omega (arith, v.counted)) (omega (arith, v.index_in)) (omega (arith, v.small));
      size = ap length kept.0 ∙ size;
      released = λ k lo hi. rw kept.0 (ground (arith, entry-mark_free n m.blocks i k));
      others = λ k h. rw kept.0 (ground (arith, entry-mark_free n m.blocks i k));
      count = kept.1 ∙ count;
      initialized = reset-initialized (released_memory m i);
    }

-- On a valid memory `free` of an address inside block `i` succeeds, and releases the run that `i`
-- heads; every other block stays, and so does the flag that the memory is initialised. Where `i` heads no
-- run (the middle of one, or a free block) nothing changes at all.
pub free-Freed :
    (address : ℕ) (m : Memory)
    → address ≢ 0
    → block_index address < total m
    → IsValid m
    → (m' : Memory) × (free address m ≡ some m')
      × Freed m (block_index address) m'
      × ((contiguous_at m.blocks (block_index address) ≢ 0) ⊎ (m' ≡ m))
unfolding free
free-Freed address m ne inside v =
    elim (Bool-cases (contiguous_at m.blocks (block_index address) == 0)) [
      | inl e ↦ (m, ground arith, free_at_zero m (block_index address) v (ground arith), inr refl)
      | inr e ↦ (
        reset_first_free_index (released_memory m (block_index address)),
        ground (
          arith,
          reset_free_blocks
              (record m {
                blocks =
                    mark_free (contiguous_at m.blocks (block_index address)) m.blocks
                      (block_index address);
              })
              (add32 m.free_blocks (contiguous_at m.blocks (block_index address))),
        ),
        released-Freed m (block_index address) v (ground arith),
        inl (ground arith),
      )
    ]

-- The same, of an address whose block is known.
pub free_block :
    (address i : ℕ) (m : Memory)
    → block_index address ≡ i
    → address ≢ 0
    → i < total m
    → IsValid m
    → (m' : Memory) × (free address m ≡ some m') × Freed m i m'
free_block address i m e ne inside v =
    let (m', freed, f, _) = free-Freed address m ne (rw e inside) v in
    (m', freed, subst (λ j. Freed m j m') e f)
