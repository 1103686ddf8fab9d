-- ===== src/Buddy/Manager.antt =====
-- The manager itself: `create_mm`, `alloc`, `free` and `status_count`. `none` is an access outside of
-- the bit arrays, or a loop that does not end.
use tp2_so_2025q.Base.{
  ℕ, zero, suc, ◌+◌, ◌-◌, ◌*◌, ◌/◌, ◌%◌, ◌^◌, Option, none, some, List, [], ◌∷◌, ◌==◌,
  if◌then◌else◌, get_elem?, set, replicate, add64, sub64, ◌++◌,
}
use tp2_so_2025q.Buddy.{
  Buddy, leaf_size, linear_allocator_start, blk_size, is_bit_set, set_bit, clear_bit, first_power,
  addr_to_bi, bi_to_addr, list_init, list_remove, list_push, list_pop, list_empty,
}

infixl 5 ◌>>=◌
abbrev pub ◌>>=◌ : {A B : Type 0} → Option A → (A → Option B) → Option B
none >>= f = none
some a >>= f = f a

-- The address of a size class's list.
abbrev pub free_list : Buddy → ℕ → ℕ
free_list b k = b.sizes + 32 * k

unfoldable pub change_alloc : ℕ → (List ℕ → Option (List ℕ)) → Buddy → Option Buddy
change_alloc k f b = do
  a ← get_elem? b.alloc_bits k
  a' ← f a
  some (record b { alloc_bits = set b.alloc_bits k a' })

unfoldable pub change_split : ℕ → (List ℕ → Option (List ℕ)) → Buddy → Option Buddy
change_split k f b = do
  a ← get_elem? b.split_bits k
  a' ← f a
  some (record b { split_bits = set b.split_bits k a' })

-- The loop of `block_size` with the rounds left.
unfoldable pub block_size_from : ℕ → ℕ → ℕ → Buddy → Option ℕ
block_size_from zero k p b = some 0
block_size_from (suc r) k p b =
    let rest = block_size_from r (suc k) p b in
    do
      a ← get_elem? b.split_bits (suc k)
      t ← is_bit_set a (addr_to_bi (suc k) p b.base)
      if t then some k else rest

unfoldable pub linear_malloc : ℕ → Buddy → ℕ × Buddy
linear_malloc size b =
    let allocated = add64 b.allocated size in
    (sub64 (add64 linear_allocator_start allocated) size, record b { allocated = allocated })

-- `ROUNDUP(NBLK(k), 8) / 8`, where `n` is `NBLK(k)`.
abbrev pub bytes_for : ℕ → ℕ
bytes_for n = (n - 1) / 8 + 1

module _ (max_size : ℕ) where
  abbrev pub heap_size : ℕ
  heap_size = blk_size max_size

  unfoldable pub block_size : ℕ → Buddy → Option ℕ
  unfolding block_size_from
  block_size p b = block_size_from max_size 0 p b

  -- The two loops of `create_mm` with the rounds left.
  unfoldable pub init_alloc : ℕ → ℕ → Buddy → Buddy
  unfolding linear_malloc
  init_alloc zero k b = b
  init_alloc (suc r) k b =
      let size = bytes_for (2 ^ (max_size - k)) in
      let (a, b') = linear_malloc size (record b { nodes = list_init (free_list b k) b.nodes }) in
      init_alloc r (suc k) (record b' { alloc_bits = b'.alloc_bits ++ replicate size 0 ∷ [] })

  unfoldable pub init_split : ℕ → ℕ → Buddy → Buddy
  unfolding linear_malloc
  init_split zero k b = b
  init_split (suc r) k b =
      let size = bytes_for (2 ^ (max_size - k)) in
      let (a, b') = linear_malloc size b in
      init_split r (suc k) (record b' { split_bits = b'.split_bits ++ replicate size 0 ∷ [] })

  unfoldable pub create_mm : Buddy → Buddy
  unfolding init_alloc init_split
  create_mm b =
      let (base, b1) = linear_malloc heap_size b in
      let b2 = init_alloc (suc max_size) 0 (record b1 { base = base; alloc_bits = [] }) in
      let b3 = init_split max_size 1 (record b2 { split_bits = [] ∷ [] }) in
      record b3 { nodes = list_push (free_list b3 max_size) base b3.nodes }

  -- The first size class from `k` on with a free block, with the rounds left.
  unfoldable pub find_free : ℕ → ℕ → Buddy → Option ℕ
  find_free zero k b = none
  find_free (suc r) k b =
      let rest = find_free r (suc k) b in
      if list_empty (free_list b k) b.nodes then rest else some k

  -- The loop of `alloc` that halves a block of class `k`, with the rounds left.
  unfoldable pub split_down : ℕ → ℕ → ℕ → Buddy → Option Buddy
  unfolding change_split change_alloc
  split_down zero k p b = some b
  split_down (suc r) k p b = do
    b1 ← change_split k (λ a. set_bit a (addr_to_bi k p b.base)) b
    b2 ← change_alloc (k - 1) (λ a. set_bit a (addr_to_bi (k - 1) p b.base)) b1
    split_down r (k - 1) p (record b2 {
      nodes = list_push (free_list b2 (k - 1)) (add64 p (blk_size (k - 1))) b2.nodes;
    })

  unfoldable pub take_block : ℕ → ℕ → Buddy → Option (ℕ × Buddy)
  unfolding split_down change_alloc
  take_block power k b = do
    let popped = list_pop (free_list b k) b.nodes
    b1 ←
        change_alloc k (λ a. set_bit a (addr_to_bi k popped.0 b.base))
          (record b { nodes = popped.1 })
    b2 ← split_down (k - power) k popped.0 b1
    some (popped.0, b2)

  -- 64 rounds are enough for `first_power`, where it ends at all.
  unfoldable pub alloc : ℕ → Buddy → Option (ℕ × Buddy)
  unfolding find_free take_block
  alloc nbytes b = if b.base == 0 then some (0, b) else (do
    power ← first_power 64 nbytes leaf_size
    elim (find_free (suc max_size - power) power b) [
      | none ↦ some (0, b)
      | some k ↦ take_block power k b
    ])

  unfoldable pub buddy_of : ℕ → ℕ
  buddy_of bi = if bi % 2 == 0 then bi + 1 else bi - 1

  -- The loop of `free` with the rounds left: the class and the address of the block that is put back.
  unfoldable pub merge : ℕ → ℕ → ℕ → Buddy → Option (ℕ × ℕ × Buddy)
  unfolding change_alloc change_split buddy_of
  merge zero k p b = some (k, p, b)
  merge (suc r) k p b = do
    let bi = addr_to_bi k p b.base
    let buddy = buddy_of bi
    b1 ← change_alloc k (λ a. clear_bit a bi) b
    a ← get_elem? b1.alloc_bits k
    t ← is_bit_set a buddy
    let q = bi_to_addr k buddy b.base
    let p' = if buddy % 2 == 0 then q else p
    let b2 = record b1 { nodes = list_remove q b1.nodes }
    let rest = λ (b3 : Buddy). merge r (suc k) p' b3
    if t
        then some (k, p, b1)
        else (change_split (suc k) (λ s. clear_bit s (addr_to_bi (suc k) p' b.base)) b2 >>= rest)

  unfoldable pub free : ℕ → Buddy → Option Buddy
  unfolding block_size merge
  free p b = do
    k ← block_size p b
    done ← merge (max_size - k) k p b
    some (record done.2 { nodes = list_push (free_list b done.0) done.1 done.2.nodes })

  -- The loop of `status_count` with the rounds left; `busy` is a `uint8_t`.
  unfoldable pub count_busy : ℕ → ℕ → ℕ → List ℕ → Option ℕ
  count_busy zero i busy array = some busy
  count_busy (suc r) i busy array = do
    t ← is_bit_set array i
    count_busy r (suc i) (if t then (busy + leaf_size) % 256 else busy) array

  unfoldable pub status_count : Buddy → Option (List ℕ)
  unfolding count_busy
  status_count b = do
    array ← get_elem? b.alloc_bits max_size
    busy ← count_busy (max_size * suc max_size) 0 0 array
    some (
        heap_size % 2 ^ 32
        ∷ busy * leaf_size
        ∷ (heap_size + 2 ^ 32 - busy * leaf_size) % 2 ^ 32
        ∷ leaf_size
        ∷ heap_size / leaf_size % 2 ^ 32
        ∷ busy
        ∷ [])
