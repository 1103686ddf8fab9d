-- ===== src/Lifecycle.antt =====
-- Processes from start to end: the rest of Kernel/proc.c, over the memory manager that the kernel is
-- linked with. `Manager` is the interface of Kernel/include/memory_manager.h.
pub mod Create
pub mod Kill
pub mod Wait
pub mod Family
pub mod Plain
pub mod ProcList
mod Tests
use tp2_so_2025q.Base.{
  ℕ, zero, suc, ◌+◌, ◌-◌, ◌*◌, Bool, true, false, not, ◌&&◌, ◌||◌, Option, none, some, List, [],
  ◌∷◌, ltb, ◌==◌, if◌then◌else◌, add32, add64, sub64, neg, set,
}
use tp2_so_2025q.System.{Kernel, entry, pcb_at, put_pcb}
use tp2_so_2025q.System.Process.{State, Pcb, is_zombie}
use tp2_so_2025q.System.Run.{Run, done, fault, Op, and_then, ◌>>=◌, ◌>>◌, pure}

-- `alloc` answers 0 for NULL. `free` is `none` where it reads or writes outside of its tables.
pub record Manager (H : Type 0) : Type 0 where
  pub alloc : ℕ → H → ℕ × H
  pub free : ℕ → H → Option H

abbrev pub sizeof_pcb : ℕ
sizeof_pcb = 1400

module _ {H : Type 0} where
  -- A step that changes the block in a slot; NULL is a fault.
  unfoldable pub change_pcb : ℕ → (Pcb → Pcb) → Op (Kernel H) (Unit {0})
  change_pcb i f k = elim (pcb_at k i) [
    | none ↦ fault
    | some p ↦ done tt (put_pcb k i (some (f p)))
  ]

  -- A step that reads the block in a slot.
  unfoldable pub with_pcb : {A : Type 0} → ℕ → (Pcb → Op (Kernel H) A) → Op (Kernel H) A
  with_pcb i f k = elim (pcb_at k i) [ none ↦ fault | some p ↦ f p k ]

  abbrev pub set_slot : ℕ → Option Pcb → Op (Kernel H) (Unit {0})
  set_slot i p k = done tt (put_pcb k i p)

  unfoldable pub count_active : ℕ → Op (Kernel H) (Unit {0})
  count_active by k = done tt (record k { active_processes = add32 k.active_processes by })

module _ {H : Type 0} (m : Manager H) where
  unfoldable pub alloc_op : ℕ → Op (Kernel H) ℕ
  alloc_op size k = let (a, h) = m.alloc size k.heap in done a (record k { heap = h })

  unfoldable pub free_op : ℕ → Op (Kernel H) (Unit {0})
  free_op address k = elim (m.free address k.heap) [
    | none ↦ fault
    | some h ↦ done tt (record k { heap = h })
  ]

  unfoldable pub free_each : List ℕ → Op (Kernel H) (Unit {0})
  unfolding free_op
  free_each [] = pure tt
  free_each (a ∷ rest) = do free_op a; free_each rest

  unfoldable pub free_argv : Option (ℕ × List ℕ) → Op (Kernel H) (Unit {0})
  unfolding free_each
  free_argv none = pure tt
  free_argv (some (array, strings)) = do free_each strings; free_op array

  -- What a dead process holds: its arguments, its stack and its block.
  unfoldable pub free_process : Pcb → Op (Kernel H) (Unit {0})
  unfolding free_argv
  free_process p = do free_argv p.argv; free_op p.stack_base; free_op p.address
