-- ===== src/Scheduler/Tests.antt =====
-- The scheduler on the sample kernel.
use tp2_so_2025q.Base.{ℕ, ◌<◌, ◌≡◌, ◌≢◌, refl, ◌⊎◌, false, some, arith, ◌==◌, if◌then◌else◌, set}
use tp2_so_2025q.Text.{strcmp}
use tp2_so_2025q.System.{Kernel, pcb_at}
use tp2_so_2025q.System.Run.{done}
use tp2_so_2025q.System.Process.{Pcb, State}
use tp2_so_2025q.System.Sample.{kernel, lock, job, shell, sleeper, table, lock-Good}
use tp2_so_2025q.Blocking.{block_process}
use tp2_so_2025q.Blocking.Laws.{
  block_process-Outcome, CallerBlocks, unblock_times_exact, unblock_times, Unblocked,
}
use tp2_so_2025q.Scheduler.{scheduling, choose_next, tick, idle_name}
use tp2_so_2025q.Scheduler.Dispatch.{IsValid, Runs, scheduling-Runs}
use tp2_so_2025q.Scheduler.RoundRobin.{
  distance, choose_next_closer, Waits, start, turn, Waits_bound,
}
use tp2_so_2025q.Scheduler.Quantum.{IsEager, run_ticks, quantum_exact}
use tp2_so_2025q.Scheduler.Good.{KeepsUnless}
use tp2_so_2025q.Semaphore.Invariant.{AreValid}

abbrev k0 : Kernel (Unit {0})
k0 = kernel lock

-- The shell leaves the CPU and the job, which is next, gets it.
abbrev k1 : Kernel (Unit {0})
k1 = record k0 {
  process_table = set table 2 (some (record job { state = State.running }));
  current_index = 2;
}

chosen : choose_next k0 ≡ some (0x1000, k1)
unfolding choose_next
chosen = refl

scheduling-Runs_example :
    (r : ℕ) × (k : Kernel (Unit {0})) × (scheduling 0x2000 k0 ≡ some (r, k)) × IsValid k × Runs r k
scheduling-Runs_example = scheduling-Runs 0x2000 k0 (λ e. omega arith) lock-Good.table

choose_next_closer_example :
    (k1.current_index < 64)
    × ((k1.current_index ≡ 2) ⊎ (distance k1.current_index 2 < distance 1 2))
unfolding choose_next
choose_next_closer_example = choose_next_closer k0 k1 2 0x1000 (omega arith) (omega arith) refl refl

-- The sleeper is ready as well, and the job goes first.
abbrev both_ready : Kernel (Unit {0})
both_ready = record k0 {
  process_table = set table 3 (some (record sleeper { state = State.ready }));
}

abbrev passed_over : Kernel (Unit {0})
passed_over = record both_ready {
  process_table = set both_ready.process_table 2 (some (record job { state = State.running }));
  current_index = 2;
}

waited_once : Waits 3 1 passed_over
unfolding choose_next
waited_once =
    turn {r = 0x1000} {k = both_ready} both_ready (start (omega arith)) refl refl refl
      (λ e. omega arith)

Waits_bound_example : 1 < 64
Waits_bound_example = Waits_bound 3 1 passed_over (omega arith) waited_once

shell-IsEager : IsEager shell
shell-IsEager = record {
  runs = refl;
  eager = refl;
  some_time = omega arith;
  in_range = omega arith;
}

quantum_exact_example :
    let (q, stays) = tick 0x2000 (run_ticks 1 0x2000 shell) in
    (stays ≡ false)
    × (q.state ≡ (
        if stays
        then State.running
        else if strcmp shell.name idle_name == 0
        then State.blocked
        else State.ready))
    × (q.time_used ≡ (if stays then 2 else 0))
    × (q.changes ≡ (if stays then 0 else 1))
quantum_exact_example = quantum_exact 1 0x2000 shell shell-IsEager (omega arith)

block_process-Outcome_example : KeepsUnless (CallerBlocks k0 1) AreValid (block_process 1 k0)
block_process-Outcome_example = block_process-Outcome AreValid k0 1 lock-Good

unblock_times_exact_example :
    (q : Pcb) × (k : Kernel (Unit {0})) × (unblock_times 2 3 k0 ≡ done tt k)
    × (pcb_at k 3 ≡ some q)
    × Unblocked sleeper 2 q
    × ((j : ℕ) → j ≢ 3 → pcb_at k j ≡ pcb_at k0 j)
unblock_times_exact_example =
    unblock_times_exact 2 3 k0 sleeper (omega arith) refl refl (omega arith) (omega arith)
      (omega arith)
