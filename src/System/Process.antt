-- ===== src/System/Process.antt =====
-- The data of Kernel/include/proc.h: process states, priorities and the process control block.
use tp2_so_2025q.Base.{ℕ, Bool, true, false, Option, List}

pub data State : Type 0 where
  ready running blocked zombie invalid : State

-- `unknown` is an enum value outside the list.
pub data Priority : Type 0 where
  level_0 level_1 level_2 level_3 level_4 level_idle : Priority
  unknown : ℕ → Priority

abbrev pub is_ready : State → Bool
is_ready State.ready = true
is_ready s = false

abbrev pub is_running : State → Bool
is_running State.running = true
is_running s = false

abbrev pub is_blocked : State → Bool
is_blocked State.blocked = true
is_blocked s = false

abbrev pub is_zombie : State → Bool
is_zombie State.zombie = true
is_zombie s = false

abbrev pub max_fd : ℕ
max_fd = 128

abbrev pub max_pcs : ℕ
max_pcs = 64

abbrev pub max_stack_size : ℕ
max_stack_size = 4096

abbrev pub process_name_max_length : ℕ
process_name_max_length = 32

abbrev pub quantum : ℕ
quantum = 2

abbrev pub idle_q : ℕ
idle_q = 1

-- `address` is the pointer under which the table holds the block, and `argv` the copied argument
-- array: its own address and the strings' addresses before the NULL. Each `int` is a pattern.
pub record Pcb : Type 0 where
  pub address : ℕ
  pub name : List ℕ
  pub pid : ℕ
  pub parent_pid : ℕ
  pub state : State
  pub file_descriptors : List ℕ
  pub rsp : ℕ
  pub stack_base : ℕ
  pub argv : Option (ℕ × List ℕ)
  pub my_prio : Priority
  pub time_used : ℕ
  pub my_max_time : ℕ
  pub total_ticks : ℕ
  pub changes : ℕ
  pub yield_changes : ℕ
  pub child_amount : ℕ
  pub childs : List ℕ
  pub blocks_amount : ℕ
  pub dad_blocked : Bool
  pub yielding : Bool
