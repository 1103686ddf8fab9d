-- ===== src/System/Sample.antt =====
-- A small kernel for the tests: the idle process, a running shell and a ready job.
use tp2_so_2025q.Base.{
  ℕ, zero, suc, ◌≡◌, refl, true, false, Option, none, some, List, [], ◌∷◌, arith, replicate, ◌++◌,
  ◌<◌, ◌^◌, get_or,
}
use tp2_so_2025q.Text.{codes}
use tp2_so_2025q.System.{Kernel, Semaphore, entry}
use tp2_so_2025q.System.Process.{Pcb, State, Priority}
use tp2_so_2025q.Scheduler.Dispatch.{TableIsValid}
use tp2_so_2025q.Scheduler.Good.{Good}
use tp2_so_2025q.Semaphore.Invariant.{SemIsValid, AreValid}

abbrev pub process : ℕ → List ℕ → State → Pcb
process i name state = record {
  address = 0x500000;
  name = name;
  pid = i;
  parent_pid = 0;
  state = state;
  file_descriptors = 0 ∷ 1 ∷ 2 ∷ replicate 125 0;
  rsp = 0x1000;
  stack_base = 0x600000;
  argv = none;
  my_prio = Priority.level_4;
  time_used = 0;
  my_max_time = 2;
  total_ticks = 0;
  changes = 0;
  yield_changes = 0;
  child_amount = 0;
  childs = replicate 64 (0xffff_ffff);
  blocks_amount = 0;
  dad_blocked = false;
  yielding = false;
}

abbrev pub idle : Pcb
idle = process 0 (codes "idle") State.blocked

abbrev pub shell : Pcb
shell = process 1 (codes "shell") State.running

abbrev pub job : Pcb
job = process 2 (codes "job") State.ready

-- Blocked twice.
abbrev pub sleeper : Pcb
sleeper = record (process 3 (codes "job") State.blocked) { blocks_amount = 2 }

abbrev pub table : List (Option Pcb)
table = some idle ∷ some shell ∷ some job ∷ some sleeper ∷ replicate 60 none

-- A lock that somebody holds, with room in its queue.
abbrev pub lock : Semaphore
lock = record {
  name = codes "lock" ++ replicate 28 0;
  value = 0;
  initialized = true;
  lock = 1;
  blocked_processes = replicate 10 0;
  amount_bprocesses = 0;
  amount_sem_openings = 1;
}

-- The same lock with process 3 in its queue.
abbrev pub contended : Semaphore
contended = record lock {
  value = 0xffff_ffff;
  blocked_processes = 3 ∷ replicate 9 0;
  amount_bprocesses = 1;
}

abbrev pub kernel : Semaphore → Kernel (Unit {0})
kernel s = record {
  process_table = table;
  idle_pid = 0;
  shell_pid = 1;
  active_processes = 4;
  current_index = 1;
  semaphores = s ∷ [];
  sem_init = true;
  global_pipe_table = [];
  heap = tt;
  cpu_rsp = 0x2000;
  stray_write_harmless = true;
}

entry-replicate : (n i : ℕ) → entry (replicate n none) i ≡ none
entry-replicate zero i = refl
entry-replicate (suc n) zero = refl
entry-replicate (suc n) (suc i) = entry-replicate n i

table_ids : (i : ℕ) (p : Pcb) → entry table i ≡ some p → p.pid ≡ i
table_ids zero p e = ground arith
table_ids (suc zero) p e = ground arith
table_ids (suc (suc zero)) p e = ground arith
table_ids (suc (suc (suc zero))) p e = ground arith
table_ids (suc (suc (suc (suc i)))) p e = ground (arith, entry-replicate 60 i)

table_alone : (i : ℕ) (p : Pcb) → entry table i ≡ some p → p.state ≡ State.running → i ≡ 1
table_alone zero p e run = ground arith
table_alone (suc zero) p e run = refl
table_alone (suc (suc zero)) p e run = ground arith
table_alone (suc (suc (suc zero))) p e run = ground arith
table_alone (suc (suc (suc (suc i)))) p e run = ground (arith, entry-replicate 60 i)

pub table-IsValid : TableIsValid table 1 0
table-IsValid = record { size = refl; ids = table_ids; alone = table_alone; idle_there = λ e. cc }

zeros_below : (n j : ℕ) → get_or (replicate n 0) j 0 < 2 ^ 32
zeros_below zero j = omega arith
zeros_below (suc n) zero = omega arith
zeros_below (suc n) (suc j) = zeros_below n j

lock-IsValid : SemIsValid lock
lock-IsValid = record {
  named = refl;
  small = omega arith;
  room = refl;
  bound = omega arith;
  pids = zeros_below 10;
  unlocked = λ u. refl;
  balance = λ u. refl;
}

contended-IsValid : SemIsValid contended
contended-IsValid = record {
  named = refl;
  small = omega arith;
  room = refl;
  bound = omega arith;
  pids = elim [ zero ↦ omega arith | suc j ↦ zeros_below 9 j ];
  unlocked = λ u. refl;
  balance = λ u. refl;
}

AreValid-one : (s : Semaphore) → SemIsValid s → AreValid (s ∷ [])
AreValid-one s v zero q e = let same : s ≡ q = ground arith in rw (← same) v
AreValid-one s v (suc i) q e = ground arith

pub lock-Good : Good AreValid (kernel lock)
lock-Good = record {
  table = table-IsValid;
  alive = λ e. omega arith;
  sems = AreValid-one lock lock-IsValid;
}

pub contended-Good : Good AreValid (kernel contended)
contended-Good = record {
  table = table-IsValid;
  alive = λ e. omega arith;
  sems = AreValid-one contended contended-IsValid;
}
