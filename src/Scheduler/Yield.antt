-- ===== src/Scheduler/Yield.antt =====
-- What the routines that give up the CPU keep.
use tp2_so_2025q.Base.{
  ℕ, zero, suc, ◌≡◌, refl, ◌⊎◌, inl, inr, Bool, true, false, Option, none, some, List, [], ◌∷◌,
  arith, ◌==◌, Bool-cases, Option-cases, neg, is_negative, to_int,
}
use tp2_so_2025q.System.{Kernel, entry, pcb_at, put_pcb}
use tp2_so_2025q.System.Entries.{entry-lt}
use tp2_so_2025q.System.Process.{Pcb, State, max_pcs}
use tp2_so_2025q.Table.{running_in, get_pid}
use tp2_so_2025q.Scheduler.{
  tick, find_ready, run_process, choose_next, after_tick, scheduling, timer_interrupt,
}
use tp2_so_2025q.Scheduler.Dispatch.{IsValid, NoneRuns, scheduling_quiet, scheduling-tick}

-- No more than the process table and the choice of the scheduler differs.
pub record SameRest {H : Type 0} (k k' : Kernel H) : Type 0 where
  pub idle : k'.idle_pid ≡ k.idle_pid
  pub shell : k'.shell_pid ≡ k.shell_pid
  pub active : k'.active_processes ≡ k.active_processes
  pub semaphores : k'.semaphores ≡ k.semaphores
  pub sem_init : k'.sem_init ≡ k.sem_init
  pub pipes : k'.global_pipe_table ≡ k.global_pipe_table
  pub heap : k'.heap ≡ k.heap
  pub stray : k'.stray_write_harmless ≡ k.stray_write_harmless

module _ {H : Type 0} where
  run_process-SameRest :
      (i r : ℕ) (k k' : Kernel H) → run_process i k ≡ some (r, k') → SameRest k k'
  unfolding run_process
  run_process-SameRest i r k k' e = ground arith

  choose_next-SameRest : (r : ℕ) (k k' : Kernel H) → choose_next k ≡ some (r, k') → SameRest k k'
  unfolding choose_next
  choose_next-SameRest r k k' e =
      elim (Option-cases (find_ready max_pcs k.process_table k.current_index)) [
        | inl a ↦ run_process-SameRest k.idle_pid r k k' (rw (a, choose_next) at e)
        | inr (j, a) ↦ run_process-SameRest j r k k' (rw (a, choose_next) at e)
      ]

  after_tick-SameRest :
      (rsp r : ℕ) (k k' : Kernel H) (p : Pcb) (stays : Bool)
      → after_tick rsp k (p, stays) ≡ some (r, k')
      → SameRest k k'
  unfolding after_tick
  after_tick-SameRest rsp r k k' p true e = ground arith
  after_tick-SameRest rsp r k k' p false e =
      let same = choose_next-SameRest r (put_pcb k k.current_index (some p)) k' e in
      record {
        idle = same.idle;
        shell = same.shell;
        active = same.active;
        semaphores = same.semaphores;
        sem_init = same.sem_init;
        pipes = same.pipes;
        heap = same.heap;
        stray = same.stray;
      }

  current_cases :
      (k : Kernel H)
      → ((is_negative k.current_index ≡ true) ⊎ (pcb_at k k.current_index ≡ none))
        ⊎ ((p : Pcb) × (is_negative k.current_index ≡ false) × (pcb_at k k.current_index ≡ some p))
  current_cases k = elim (Bool-cases (is_negative k.current_index)) [
    | inl first ↦ inl (inl first)
    | inr later ↦ elim (Option-cases (pcb_at k k.current_index)) [
      | inl gone ↦ inl (inr gone)
      | inr (p, at) ↦ inr (p, later, at)
    ]
  ]

  scheduling-SameRest :
      (rsp r : ℕ) (k k' : Kernel H) → scheduling rsp k ≡ some (r, k') → SameRest k k'
  unfolding scheduling
  scheduling-SameRest rsp r k k' e = elim (Bool-cases (k.active_processes == 0)) [
    | inl idle ↦ let same : k' ≡ k = ground arith in rw same (ground arith)
    | inr alive ↦ elim (current_cases k) [
      | inl quiet ↦
          choose_next-SameRest r k k' (rw (scheduling_quiet rsp k (ground arith) quiet) at e)
      | inr (p, later, at) ↦
          after_tick-SameRest rsp r k k' (tick rsp p).0 (tick rsp p).1
            (rw (scheduling-tick rsp k p (ground arith) later at) at e)
    ]
  ]

  pub timer_interrupt-SameRest : (k k' : Kernel H) → timer_interrupt k ≡ some k' → SameRest k k'
  unfolding timer_interrupt
  timer_interrupt-SameRest k k' e = elim (Option-cases (scheduling k.cpu_rsp k)) [
    | inl gone ↦ ground arith
    | inr ((r, j), found) ↦
        let same = scheduling-SameRest k.cpu_rsp r k j found in
        let out : record j { cpu_rsp = r } ≡ k' = ground arith in
        rw (← out) (record {
          idle = same.idle;
          shell = same.shell;
          active = same.active;
          semaphores = same.semaphores;
          sem_init = same.sem_init;
          pipes = same.pipes;
          heap = same.heap;
          stray = same.stray;
        })
  ]

-- `get_pid` is -1 exactly where nobody runs, and else the PID of the one that does.
pub running_in_none : (t : List (Option Pcb)) → NoneRuns t → running_in t ≡ neg 1
unfolding running_in
running_in_none [] quiet = refl
running_in_none (none ∷ t) quiet = running_in_none t (λ i p e. quiet (suc i) p e)
running_in_none (some q ∷ t) quiet =
    ground (arith, quiet 0 q refl, running_in_none t (λ i p e. quiet (suc i) p e))

pub running_in-some :
    (t : List (Option Pcb)) (i : ℕ) (p : Pcb)
    → entry t i ≡ some p
    → p.state ≡ State.running
    → ((j : ℕ) (q : Pcb) → entry t j ≡ some q → q.state ≡ State.running → j ≡ i)
    → running_in t ≡ to_int p.pid
unfolding running_in
running_in-some [] i p e run alone = ground arith
running_in-some (none ∷ t) zero p e run alone = ground arith
running_in-some (none ∷ t) (suc i) p e run alone =
    running_in-some t i p e run (λ j q at r. omega (arith, alone (suc j) q at r))
running_in-some (some q ∷ t) zero p e run alone = ground arith
running_in-some (some q ∷ t) (suc i) p e run alone = ground (
  arith,
  alone 0 q refl,
  running_in-some t i p e run (λ j b at r. omega (arith, alone (suc j) b at r)),
)

module _ {H : Type 0} where
  -- On a valid table `get_pid` is the index of the process on the CPU.
  pub get_pid-current :
      (k : Kernel H) (p : Pcb)
      → IsValid k
      → pcb_at k k.current_index ≡ some p
      → p.state ≡ State.running
      → get_pid k ≡ k.current_index
  unfolding get_pid
  get_pid-current k p v e run = omega (
    arith,
    running_in-some k.process_table k.current_index p e run v.alone,
    v.ids k.current_index p e,
    entry-lt k.process_table k.current_index p e,
    v.size,
  )

  pub get_pid_none : (k : Kernel H) → NoneRuns k.process_table → get_pid k ≡ neg 1
  unfolding get_pid
  get_pid_none k quiet = running_in_none k.process_table quiet
