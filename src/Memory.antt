-- ===== src/Memory.antt =====
-- Kernel/memory_management/memory_manager.c, the simple allocator of 4 KB blocks.
pub mod Entries
pub mod Loops
pub mod Count
pub mod Invariant
pub mod Alloc
pub mod Free
pub mod RoundTrip
mod Tests
use tp2_so_2025q.Base.{
  ℕ, zero, suc, ◌+◌, ◌-◌, ◌*◌, ◌/◌, ◌%◌, ◌^◌, Bool, true, false, not, ◌||◌, Option, none, some,
  List, [], ◌∷◌, ltb, leb, ◌==◌, if◌then◌else◌, length, set, add32, sub32, add64, sub64, to_int,
}
use Entries.{Block, Status, block, is_free, status_at, contiguous_at, vacant}

abbrev pub block_size : ℕ
block_size = 0x1000

abbrev pub memory_start : ℕ
memory_start = 0x500000

-- The file's statics. TOTAL_BLOCK_COUNT is the length of `blocks`, which is `block_array`.
pub record Memory : Type 0 where
  pub blocks : List Block
  pub is_initialized : Bool
  pub first_free_index : ℕ
  pub free_blocks : ℕ

abbrev pub total : Memory → ℕ
total m = length m.blocks

-- The index of the first free block, if there is one; `i` is the index of the list's head.
unfoldable pub first_free : List Block → ℕ → Option ℕ
first_free [] i = none
first_free (b ∷ bs) i = if is_free b.status then some i else first_free bs (suc i)

unfoldable pub reset_first_free_index : Memory → Memory
unfolding first_free
reset_first_free_index m = elim (first_free m.blocks 0) [
  | none ↦ m
  | some i ↦ record m { first_free_index = i }
]

unfoldable pub clear_blocks : List Block → List Block
clear_blocks [] = []
clear_blocks (b ∷ bs) = vacant ∷ clear_blocks bs

unfoldable pub create_mm : Memory → Memory
unfolding clear_blocks
create_mm m = if m.is_initialized then m else (record m {
  is_initialized = true;
  blocks = clear_blocks m.blocks;
  free_blocks = to_int (total m);
})

-- The inner loop of the search: the first of `r` blocks from `j` on that is not free.
unfoldable pub first_used : ℕ → List Block → ℕ → Option ℕ
first_used zero bs j = none
first_used (suc r) bs j = if is_free (status_at bs j) then first_used r bs (suc j) else some j

-- The outer loop: a free block at `i` with `n - 1` free ones behind it, `i` at most `limit`. A used
-- block at `j` sends the search on to `j + 1`. `i` grows in every round.
unfoldable pub search : ℕ → List Block → ℕ → ℕ → ℕ → Option ℕ
search zero bs n limit i = none
search (suc f) bs n limit i = elim (leb i limit) [
  | false ↦ none
  | true ↦ elim (is_free (status_at bs i)) [
    | false ↦ search f bs n limit (suc i)
    | true ↦ elim (first_used (n - 1) bs (suc i)) [
      | none ↦ some i
      | some j ↦ search f bs n limit (suc j)
    ]
  ]
]

-- `block_array[j].status = USED` for `r` blocks from `j` on.
unfoldable pub mark_used : ℕ → List Block → ℕ → List Block
mark_used zero bs j = bs
mark_used (suc r) bs j = mark_used r (set bs j (block Status.used (contiguous_at bs j))) (suc j)

-- `status = FREE; contiguous_blocks = 0` for `r` blocks from `j` on.
unfoldable pub mark_free : ℕ → List Block → ℕ → List Block
mark_free zero bs j = bs
mark_free (suc r) bs j = mark_free r (set bs j vacant) (suc j)

unfoldable pub blocks_needed : ℕ → ℕ
blocks_needed size = to_int (sub64 (add64 size block_size) 1 / block_size)

-- The entries after the `n` blocks from `i` on were given away; the head holds their number.
unfoldable pub taken : List Block → ℕ → ℕ → List Block
unfolding mark_used
taken bs n i = mark_used (n - 1) (set bs i (block Status.used n)) (suc i)

-- What `alloc` does with the `n` blocks found at `i`.
unfoldable pub take_blocks : Memory → ℕ → ℕ → Memory
unfolding taken reset_first_free_index
take_blocks m n i =
    let bs = taken m.blocks n i in
    let m' = record m { blocks = bs } in
    let m'' = if is_free (status_at bs m.first_free_index) then m' else reset_first_free_index m' in
    record m'' { free_blocks = sub32 m.free_blocks n }

-- The returned pointer is 0 for NULL. The search gets as much fuel as there are blocks, and one.
unfoldable pub alloc : ℕ → Memory → ℕ × Memory
unfolding blocks_needed search first_used take_blocks
alloc size m =
    let n = blocks_needed size in
    let found = search (suc (total m)) m.blocks n (sub32 (total m) n) m.first_free_index in
    if size == 0
    then (0, m)
    else if not m.is_initialized || ltb m.free_blocks n
    then (0, m)
    else elim found [ none ↦ (0, m) | some i ↦ (memory_start + i * block_size, take_blocks m n i) ]

unfoldable pub block_index : ℕ → ℕ
block_index address = to_int (sub64 address memory_start) / block_size

-- `none`: the address lies outside the array, and the read is out of bounds.
unfoldable pub free : ℕ → Memory → Option Memory
unfolding block_index mark_free reset_first_free_index
free address m =
    let index = block_index address in
    let n = contiguous_at m.blocks index in
    let m' = reset_first_free_index (record m { blocks = mark_free n m.blocks index }) in
    if address == 0
    then some m
    else if not (ltb index (total m))
    then none
    else if n == 0
    then some m
    else some (record m' { free_blocks = add32 m.free_blocks n })

-- The six words of `status_out`.
unfoldable pub status_count : Memory → List ℕ
status_count m =
    to_int (total m * block_size)
    ∷ to_int (sub64 (total m * block_size) (to_int (m.free_blocks * block_size)))
    ∷ to_int (m.free_blocks * block_size)
    ∷ block_size
    ∷ total m
    ∷ sub32 (total m) m.free_blocks
    ∷ []
