-- ===== src/Lifecycle/Tests.antt =====
-- Processes of the sample kernel, and a kernel with the simple memory manager.
use tp2_so_2025q.Base.{
  ℕ, zero, suc, ◌+◌, ◌-◌, ◌*◌, ◌≡◌, refl, true, false, Option, none, some, List, [], ◌∷◌, ◌++◌, ◌^◌,
  map, arith, replicate, get_or, neg, lt_int, to_int,
}
use tp2_so_2025q.Text.{codes, strcmp, strlen, strncpy}
use tp2_so_2025q.Memory.{Memory, alloc, free}
use tp2_so_2025q.Memory.Entries.{vacant}
use tp2_so_2025q.System.{Kernel, pcb_at}
use tp2_so_2025q.System.Run.{Run, done, fault, spin, switch, Keeps, and_then}
use tp2_so_2025q.System.Sample.{kernel, lock, job, shell, table, lock-Good}
use tp2_so_2025q.Table.{get_pid}
use tp2_so_2025q.Scheduler.Good.{Good}
use tp2_so_2025q.Semaphore.Invariant.{AreValid}
use tp2_so_2025q.Lifecycle.{Manager}
use tp2_so_2025q.Lifecycle.ProcList.{ProcessInfo, list_from, get_proc_list}
use tp2_so_2025q.Lifecycle.Create.{adopt, create_process}
use tp2_so_2025q.Lifecycle.Kill.{disown, kill_process, of_mvar}
use tp2_so_2025q.Lifecycle.Family.{disown-adopt}
use tp2_so_2025q.Lifecycle.Plain.{IsPlain, kill_process_plain}

abbrev simple : Manager Memory
simple = record { alloc = alloc; free = free }

-- The sample kernel over `n` free blocks.
abbrev over_memory : ℕ → Kernel Memory
over_memory n = record {
  process_table = table;
  idle_pid = 0;
  shell_pid = 1;
  active_processes = 4;
  current_index = 1;
  semaphores = lock ∷ [];
  sem_init = true;
  global_pipe_table = [];
  heap = record {
    blocks = replicate n vacant;
    is_initialized = true;
    first_free_index = 0;
    free_blocks = n;
  };
  cpu_rsp = 0x2000;
  stray_write_harmless = true;
}

-- The answer, the stack pointer and the parent of slot 4, and the free blocks, of a call that ends.
abbrev summary : Run (Kernel Memory) ℕ → Option (ℕ × Option (ℕ × ℕ) × ℕ)
summary (done r k) =
    some (
      r,
      elim (pcb_at k 4) [ none ↦ none | some p ↦ some (p.rsp, p.parent_pid) ],
      k.heap.free_blocks,
    )
summary fault = none
summary spin = none
summary (switch k rest) = none

-- A block for the process, one for its stack, one for the argument array and one for each of two
-- strings.
created :
    summary (
      create_process simple 0x400000
        (codes "job")
        2
        (some (codes "a" ∷ codes "bc" ∷ []))
        none
        (over_memory 8))
    ≡ some (4, some (0x500000 + 2 * 4096 - 160, 1), 3)
unfolding create_process strcmp strlen alloc free and_then get_pid
created = refl

-- Where memory ends at the second string, all of it is given back.
rolled_back :
    summary (
      create_process simple 0x400000
        (codes "job")
        2
        (some (codes "a" ∷ codes "bc" ∷ []))
        none
        (over_memory 4))
    ≡ some (neg 2, none, 4)
unfolding create_process strcmp strlen alloc free and_then get_pid
rolled_back = refl

all_minus_one : (n j : ℕ) → get_or (replicate n (neg 1)) j (neg 1) ≡ neg 1
all_minus_one zero j = refl
all_minus_one (suc n) zero = refl
all_minus_one (suc n) (suc j) = all_minus_one n j

-- A child that came and went.
adopted_and_dropped : disown 2 (adopt 2 shell) ≡ shell
adopted_and_dropped =
    disown-adopt 2 5 shell (omega arith) (omega arith) (λ j e. omega (arith, all_minus_one 64 j))
      refl

zeros_quiet : (n j : ℕ) → lt_int 2 (to_int (get_or (replicate n 0) j 0)) ≡ false
zeros_quiet zero j = refl
zeros_quiet (suc n) zero = refl
zeros_quiet (suc n) (suc j) = zeros_quiet n j

standard_quiet : (j : ℕ) → lt_int 2 (to_int (get_or job.file_descriptors j 0)) ≡ false
standard_quiet zero = refl
standard_quiet (suc zero) = refl
standard_quiet (suc (suc zero)) = refl
standard_quiet (suc (suc (suc j))) = zeros_quiet 125 j

job-IsPlain : IsPlain job
unfolding of_mvar strcmp
job-IsPlain = record {
  living = refl;
  no_streams = standard_quiet;
  no_mvar = refl;
  childless = refl;
  unawaited = refl;
}

kill_process_plain_example :
    Keeps (Good AreValid) (λ _. Good AreValid) (kill_process 1 2 (kernel lock))
kill_process_plain_example =
    kill_process_plain AreValid 0 (kernel lock) 2 job lock-Good (omega arith) refl job-IsPlain
      (omega arith) (omega arith) (λ e. omega arith) (λ e. omega arith)

-- An entry of the list before it is filled.
abbrev fresh : ProcessInfo
fresh = record {
  name = [];
  pid = 0;
  parent_pid = 0;
  state = replicate 16 0x78;
  rsp = 0;
  my_prio = replicate 16 0x78;
  child_amount = 0;
  children = [];
  file_descriptors = [];
  fds_count = 0;
}

abbrev pid_and_state : Option (List ProcessInfo) → Option (List (ℕ × List ℕ))
pid_and_state none = none
pid_and_state (some l) = some (map (λ info. (info.pid, info.state)) l)

listed :
    pid_and_state (list_from (some shell ∷ none ∷ []) (fresh ∷ fresh ∷ []))
    ≡ some (
        (1, codes "RUNNING" ++ 0 ∷ replicate 7 0x78 ++ 0 ∷ [])
        ∷ (2 ^ 64 - 1, codes "INVALID" ++ 0 ∷ replicate 8 0x78)
        ∷ [])
unfolding list_from strncpy
listed = refl

-- Without memory there is no list.
no_list : get_proc_list simple (λ _. []) (over_memory 0) ≡ done (0, []) (over_memory 0)
unfolding get_proc_list alloc and_then
no_list = refl
