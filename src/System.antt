-- ===== src/System.antt =====
-- The kernel's global state, over the state `H` of the memory manager it is linked with.
pub mod Process
pub mod Entries
pub mod Sample
pub mod Run
use tp2_so_2025q.Base.{
  ℕ, zero, suc, Bool, Option, none, some, List, [], ◌∷◌, get_elem?, set, length,
}
use Process.{Pcb}

pub record Semaphore : Type 0 where
  pub name : List ℕ
  pub value : ℕ
  pub initialized : Bool
  pub lock : ℕ
  pub blocked_processes : List ℕ
  pub amount_bprocesses : ℕ
  pub amount_sem_openings : ℕ

pub record Pipe : Type 0 where
  pub is_named : Bool
  pub name : List ℕ
  pub ref_count : ℕ
  pub write_open_count : ℕ
  pub read_open_count : ℕ
  pub eof_signaled : Bool
  pub buffer : List ℕ
  pub read_index : ℕ
  pub write_index : ℕ
  pub sem_pipe_lock_name : List ℕ
  pub sem_items_available_name : List ℕ
  pub sem_empty_space_available_name : List ℕ
  pub is_in_use : Bool

-- The statics of proc.c, scheduler.c, sem.c and pipes.c. `cpu_rsp` is the stack pointer that the
-- timer interrupt saves and loads. `stray_write_harmless` is a fact of the linked image: whether the
-- word before `process_table` in memory, taken for a pointer to a block, leads outside of this state.
pub record Kernel (H : Type 0) : Type 0 where
  pub process_table : List (Option Pcb)
  pub idle_pid : ℕ
  pub shell_pid : ℕ
  pub active_processes : ℕ
  pub current_index : ℕ
  pub semaphores : List Semaphore
  pub sem_init : Bool
  pub global_pipe_table : List Pipe
  pub heap : H
  pub cpu_rsp : ℕ
  pub stray_write_harmless : Bool

-- The entry of the table: `none` is NULL. An index outside the array reads as NULL, and to follow
-- NULL is a fault.
abbrev pub entry : List (Option Pcb) → ℕ → Option Pcb
entry [] i = none
entry (p ∷ t) zero = p
entry (p ∷ t) (suc i) = entry t i

module _ {H : Type 0} where
  abbrev pub pcb_at : Kernel H → ℕ → Option Pcb
  pcb_at k i = entry k.process_table i

  abbrev pub put_pcb : Kernel H → ℕ → Option Pcb → Kernel H
  put_pcb k i p = record k { process_table = set k.process_table i p }
