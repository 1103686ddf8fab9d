-- ===== src/Buddy/Tests.antt =====
-- A heap of 256 bytes.
use tp2_so_2025q.Base.{
  ℕ, ◌≡◌, refl, Option, none, some, List, [], ◌∷◌, ◌<◌, ◌≤◌, ◌⊎◌, true, false, ◌==◌, if◌then◌else◌,
  arith,
}
use tp2_so_2025q.Text.Compare.{AreBytes}
use tp2_so_2025q.Buddy.Lists.{Keeps, lists_refine}
use tp2_so_2025q.Buddy.Bits.{set_bit-is_bit_set}
use tp2_so_2025q.Buddy.Power.{first_power_total}
use tp2_so_2025q.Buddy.{
  Buddy, Nodes, first_power, list_empty, list_push, list_init, set_bit, addr_to_bi, list_pop,
  is_bit_set, clear_bit, bi_to_addr, list_remove, leaf_size, blk_size,
}
use tp2_so_2025q.Buddy.Manager.{◌>>=◌, create_mm, alloc, free}

abbrev blank : Buddy
blank = record {
  sizes = 0x1000;
  base = 0;
  allocated = 0;
  nodes = record { next = λ a. 0; prev = λ a. 0 };
  alloc_bits = [];
  split_bits = [];
}

address : Option (ℕ × Buddy) → Option ℕ
address none = none
address (some (p, b)) = some p

bits : Option Buddy → Option (List (List ℕ) × List (List ℕ))
bits none = none
bits (some b) = some (b.alloc_bits, b.split_bits)

second : Option (ℕ × Buddy)
second = do r ← alloc 4 20 (create_mm 4 blank); alloc 4 20 r.1

both_freed : Option Buddy
both_freed = do
  r ← alloc 4 20 (create_mm 4 blank)
  s ← alloc 4 20 r.1
  b ← free 4 r.0 s.1
  free 4 s.0 b

second_address : address second ≡ some 0x500020
unfolding alloc create_mm second address first_power list_empty list_push list_init set_bit
    addr_to_bi list_pop
second_address = refl

-- The bit of the whole heap stays set.
restored :
    bits both_freed
    ≡ some (
      (0 ∷ 0 ∷ []) ∷ (0 ∷ []) ∷ (0 ∷ []) ∷ (0 ∷ []) ∷ (1 ∷ []) ∷ [],
      [] ∷ (0 ∷ []) ∷ (0 ∷ []) ∷ (0 ∷ []) ∷ (0 ∷ []) ∷ [],
    )
unfolding alloc create_mm free both_freed bits first_power list_empty list_push list_init set_bit
    addr_to_bi list_pop is_bit_set clear_bit bi_to_addr
restored = refl

-- Two blocks that are 64 KB apart have the same bit.
same_bit : addr_to_bi 0 0x511230 0x500000 ≡ addr_to_bi 0 0x501230 0x500000
unfolding addr_to_bi
same_bit = refl

-- The list at 1 with the nodes 10 and 20.
abbrev two : Nodes
two = list_push 1 10 (list_push 1 20 (list_init 1 (record { next = λ a. 0; prev = λ a. 0 })))

two-Keeps : Keeps two 1 (10 ∷ 20 ∷ [])
unfolding list_push list_init
two-Keeps = record {
  linked = (refl, refl, (refl, refl, (refl, refl)));
  head_apart = omega arith;
  distinct = omega arith;
}

lists_refine_example :
    Keeps (list_init 1 two) 1 []
    × Keeps (list_push 1 30 two) 1 (30 ∷ 10 ∷ 20 ∷ [])
    × ((list_pop 1 two).0 ≡ 10)
    × Keeps (list_pop 1 two).1 1 (20 ∷ [])
    × (list_empty 1 two ≡ false)
    × Keeps (list_remove 20 two) 1 (10 ∷ [])
lists_refine_example =
    lists_refine 1 30 20 (10 ∷ 20 ∷ []) (10 ∷ []) [] two two two-Keeps (λ e. omega arith)
      (omega arith) two-Keeps

bit_changed :
    (s : List ℕ) × (c : List ℕ) × (set_bit (0 ∷ 5 ∷ []) 9 ≡ some s)
    × (clear_bit (0 ∷ 5 ∷ []) 9 ≡ some c)
    × AreBytes s
    × AreBytes c
    × ((j : ℕ) → is_bit_set s j ≡ (if 9 == j then some true else is_bit_set (0 ∷ 5 ∷ []) j))
    × ((j : ℕ) → is_bit_set c j ≡ (if 9 == j then some false else is_bit_set (0 ∷ 5 ∷ []) j))
bit_changed = set_bit-is_bit_set (0 ∷ 5 ∷ []) 9 (omega arith) (omega arith)

first_power_total_example :
    (k : ℕ) × (first_power 64 100 leaf_size ≡ some k)
    × (100 ≤ blk_size k)
    × ((j : ℕ) → (blk_size j < 100) ⊎ (k ≤ j))
first_power_total_example = first_power_total 100 (omega arith)
