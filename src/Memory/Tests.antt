-- ===== src/Memory/Tests.antt =====
-- A memory of four blocks, from `create_mm` on.
use tp2_so_2025q.Base.{◌≡◌, ◌≢◌, ◌⊎◌, refl, true, false, some, [], ◌∷◌, arith, replicate}
use tp2_so_2025q.Memory.Entries.{Status, block, vacant}
use tp2_so_2025q.Memory.{
  contiguous_at, Memory, create_mm, alloc, free, status_count, blocks_needed, block_index,
}
use tp2_so_2025q.Memory.Count.{count_free}
use tp2_so_2025q.Memory.Invariant.{IsValid}
use tp2_so_2025q.Memory.Alloc.{Outcome, alloc-Outcome, alloc-IsValid}
use tp2_so_2025q.Memory.Free.{Freed, free-Freed}
use tp2_so_2025q.Memory.RoundTrip.{free-alloc, create_mm-IsValid, status_count-adds_up}

abbrev blank : Memory
blank = record {
  blocks = replicate 4 (block Status.used 7);
  is_initialized = false;
  first_free_index = 0;
  free_blocks = 0;
}

abbrev start : Memory
start = record {
  blocks = replicate 4 vacant;
  is_initialized = true;
  first_free_index = 0;
  free_blocks = 4;
}

-- After a request of 5000 bytes, two blocks.
abbrev one_run : Memory
one_run = record {
  blocks = block Status.used 2 ∷ block Status.used 0 ∷ vacant ∷ vacant ∷ [];
  is_initialized = true;
  first_free_index = 2;
  free_blocks = 2;
}

create-start : create_mm blank ≡ start
unfolding create_mm
create-start = refl

alloc-one_run : alloc 5000 start ≡ (0x500000, one_run)
unfolding alloc
alloc-one_run = refl

alloc_too_much : alloc 12289 one_run ≡ (0, one_run)
unfolding alloc
alloc_too_much = refl

free_head : free 0x500000 one_run ≡ some start
unfolding free
free_head = refl

-- The second block of a run is no address that `free` takes.
free_middle : free 0x501000 one_run ≡ some one_run
unfolding free
free_middle = refl

start-IsValid : IsValid start
unfolding create_mm
start-IsValid = (create_mm-IsValid blank refl refl (omega arith) (omega arith)).0

one_run-IsValid : IsValid one_run
unfolding alloc
one_run-IsValid = alloc-IsValid 5000 start (omega arith) (omega arith) start-IsValid refl

create_mm-IsValid_example :
    IsValid (create_mm blank)
    × ((create_mm blank).free_blocks ≡ 4)
    × (create_mm (create_mm blank) ≡ create_mm blank)
create_mm-IsValid_example = create_mm-IsValid blank refl refl (omega arith) (omega arith)

alloc-Outcome_example : Outcome one_run (blocks_needed 4097) (alloc 4097 one_run)
alloc-Outcome_example = alloc-Outcome 4097 one_run (omega arith) (omega arith) one_run-IsValid refl

alloc-IsValid_example : IsValid (alloc 4097 one_run).1
alloc-IsValid_example = alloc-IsValid 4097 one_run (omega arith) (omega arith) one_run-IsValid refl

free-Freed_example :
    (m : Memory) × (free 0x500123 one_run ≡ some m)
    × Freed one_run (block_index 0x500123) m
    × ((contiguous_at one_run.blocks (block_index 0x500123) ≢ 0) ⊎ (m ≡ one_run))
unfolding block_index
free-Freed_example = free-Freed 0x500123 one_run (omega arith) (omega arith) one_run-IsValid

free-alloc_example :
    (m : Memory) × (free (alloc 4097 one_run).0 (alloc 4097 one_run).1 ≡ some m)
    × (m.blocks ≡ one_run.blocks)
    × (m.free_blocks ≡ 2)
    × IsValid m
unfolding alloc
free-alloc_example =
    free-alloc 4097 one_run (omega arith) (omega arith) one_run-IsValid refl (omega arith)

status_count-adds_up_example : status_count one_run ≡ 16384 ∷ 8192 ∷ 8192 ∷ 4096 ∷ 4 ∷ 2 ∷ []
unfolding count_free
status_count-adds_up_example = status_count-adds_up one_run one_run-IsValid
