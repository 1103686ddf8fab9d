-- ===== src/Buddy.antt =====
-- Kernel/memory_management/buddy_memory_manager.c with Kernel/libs/lib_buddy.c and Kernel/libs/lib_bit.c:
-- the other memory manager that the kernel can be linked with. The largest size class, 25 in the
-- source, is a parameter, so that small heaps can be run.
pub mod Lists
pub mod Bits
pub mod Power
pub mod Manager
mod Tests
use Prim.Native.Nat.{bit_and, bit_or}
use tp2_so_2025q.Base.{
  ℕ, zero, suc, ◌+◌, ◌-◌, ◌*◌, ◌/◌, ◌%◌, ◌^◌, Bool, true, false, Option, none, some, List, [], ◌∷◌,
  ltb, leb, ◌==◌, if◌then◌else◌, get_elem?, set, replicate, add64, sub64,
}

abbrev pub leaf_size : ℕ
leaf_size = 16

abbrev pub linear_allocator_start : ℕ
linear_allocator_start = 0x500000

-- `BLK_SIZE(k)`.
abbrev pub blk_size : ℕ → ℕ
blk_size k = 2 ^ k * leaf_size

-- A byte as a list of flags: one, with one more, and with one less.
unfoldable pub byte_test : ℕ → ℕ → Bool
byte_test b k = bit_and b (2 ^ k) == 2 ^ k

unfoldable pub byte_set : ℕ → ℕ → ℕ
byte_set b k = bit_or b (2 ^ k)

unfoldable pub byte_clear : ℕ → ℕ → ℕ
byte_clear b k = bit_and b (255 - 2 ^ k)

-- `none`: outside of the array.
unfoldable pub is_bit_set : List ℕ → ℕ → Option Bool
unfolding byte_test
is_bit_set array index = elim (get_elem? array (index / 8)) [
  | none ↦ none
  | some b ↦ some (byte_test b (index % 8))
]

unfoldable pub set_bit : List ℕ → ℕ → Option (List ℕ)
unfolding byte_set
set_bit array index = elim (get_elem? array (index / 8)) [
  | none ↦ none
  | some b ↦ some (set array (index / 8) (byte_set b (index % 8)))
]

unfoldable pub clear_bit : List ℕ → ℕ → Option (List ℕ)
unfolding byte_clear
clear_bit array index = elim (get_elem? array (index / 8)) [
  | none ↦ none
  | some b ↦ some (set array (index / 8) (byte_clear b (index % 8)))
]

-- `first_power` on fuel; `none` means that the loop goes on.
unfoldable pub power_loop : ℕ → ℕ → ℕ → ℕ → Option ℕ
power_loop zero k size n = none
power_loop (suc fuel) k size n =
    let rest = power_loop fuel ((k + 1) % 2 ^ 16) (size * 2 % 2 ^ 64) n in
    if ltb size n then rest else some k

unfoldable pub first_power : ℕ → ℕ → ℕ → Option ℕ
unfolding power_loop
first_power fuel n min_size = power_loop fuel 0 min_size n

-- The offset is cut to 16 bits before the division.
unfoldable pub addr_to_bi : ℕ → ℕ → ℕ → ℕ
addr_to_bi k p base_addr = sub64 p base_addr % 2 ^ 16 / blk_size k

unfoldable pub bi_to_addr : ℕ → ℕ → ℕ → ℕ
bi_to_addr k bi base_addr = add64 base_addr (bi * blk_size k % 2 ^ 32)

-- The two pointers of each list node, by its address.
pub record Nodes : Type 0 where
  pub next : ℕ → ℕ
  pub prev : ℕ → ℕ

unfoldable pub update : (ℕ → ℕ) → ℕ → ℕ → ℕ → ℕ
update f a v x = if x == a then v else f x

unfoldable pub set_next : ℕ → ℕ → Nodes → Nodes
unfolding update
set_next a v m = record m { next = update m.next a v }

unfoldable pub set_prev : ℕ → ℕ → Nodes → Nodes
unfolding update
set_prev a v m = record m { prev = update m.prev a v }

unfoldable pub list_init : ℕ → Nodes → Nodes
unfolding set_next set_prev
list_init l m = set_prev l l (set_next l l m)

unfoldable pub list_remove : ℕ → Nodes → Nodes
unfolding set_next set_prev
list_remove e m = let m1 = set_next (m.prev e) (m.next e) m in set_prev (m1.next e) (m1.prev e) m1

unfoldable pub list_push : ℕ → ℕ → Nodes → Nodes
unfolding set_next set_prev
list_push l p m =
    let m1 = set_prev p l (set_next p (m.next l) m) in
    let m2 = set_prev (m1.next l) p m1 in set_next l p m2

-- The first node, or NULL, and the rest.
unfoldable pub list_pop : ℕ → Nodes → ℕ × Nodes
unfolding list_remove
list_pop l m = if m.next l == l then (0, m) else (m.next l, list_remove (m.next l) m)

unfoldable pub list_empty : ℕ → Nodes → Bool
list_empty l m = m.next l == l

-- `sizes` is the address of `buddy_sizes`. The bit arrays stand by size class; class 0 has no `split`.
pub record Buddy : Type 0 where
  pub sizes : ℕ
  pub base : ℕ
  pub allocated : ℕ
  pub nodes : Nodes
  pub alloc_bits : List (List ℕ)
  pub split_bits : List (List ℕ)
