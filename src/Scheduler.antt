-- ===== src/Scheduler.antt =====
-- Kernel/scheduler.c: `scheduling`, `yield` and `last_wish`.
-- `_yield` is the software interrupt 0x20, whose stub hands the stack pointer to `scheduling`. The count
-- of ticks that the interrupt raises first is not part of this state.
pub mod Dispatch
pub mod RoundRobin
pub mod Quantum
pub mod Yield
pub mod Good
mod Tests
use tp2_so_2025q.Base.{
  ℕ, zero, suc, ◌%◌, Bool, true, false, not, Option, none, some, List, ◌==◌, if◌then◌else◌, set,
  add32, neg, is_negative, lt_int,
}
use tp2_so_2025q.Text.{codes, strcmp}
use tp2_so_2025q.Table.{get_pid}
use tp2_so_2025q.System.{Kernel, entry, pcb_at, put_pcb}
use tp2_so_2025q.System.Process.{State, Pcb, is_ready, is_running, max_pcs}
use tp2_so_2025q.System.Run.{done, fault, switch, Op}

abbrev pub idle_name : List ℕ
idle_name = codes "idle"

-- A tick of the process on the CPU: its pointer is saved, and if it runs, its time grows. The flag
-- says that it stays on the CPU.
unfoldable pub tick : ℕ → Pcb → Pcb × Bool
tick rsp curr =
    let saved = record curr { rsp = rsp } in
    let used = add32 curr.time_used 1 in
    let counted = record saved { time_used = used; total_ticks = add32 curr.total_ticks 1 } in
    let next : State = if strcmp curr.name idle_name == 0 then State.blocked else State.ready in
    if not (is_running curr.state)
    then (saved, false)
    else if not (lt_int used curr.my_max_time)
    then (record counted { time_used = 0; changes = add32 curr.changes 1; state = next }, false)
    else if curr.yielding
    then (
      record counted {
        yielding = false;
        time_used = 0;
        yield_changes = add32 curr.yield_changes 1;
        state = State.ready;
      },
      false,
    )
    else (counted, true)

unfoldable pub ready_at : List (Option Pcb) → ℕ → Bool
ready_at t i = elim (entry t i) [ none ↦ false | some p ↦ is_ready p.state ]

-- The loop `do … while (checked < MAX_PCS)` with the rounds left; `i` is `next_index`.
unfoldable pub find_ready : ℕ → List (Option Pcb) → ℕ → Option ℕ
unfolding ready_at
find_ready zero t i = none
find_ready (suc r) t i =
    let j = add32 i 1 % max_pcs in
    let rest = find_ready r t j in if ready_at t j then some j else rest

module _ {H : Type 0} where
  -- Process `i` gets the CPU: the new stack pointer, and the new state.
  unfoldable pub run_process : ℕ → Kernel H → Option (ℕ × Kernel H)
  run_process i k = elim (pcb_at k i) [
    | none ↦ none
    | some p ↦ some (
      p.rsp,
      record k {
        process_table = set k.process_table i (some (record p { state = State.running }));
        current_index = i;
      },
    )
  ]

  -- From the search for the next process on.
  unfoldable pub choose_next : Kernel H → Option (ℕ × Kernel H)
  unfolding find_ready run_process
  choose_next k = elim (find_ready max_pcs k.process_table k.current_index) [
    | some j ↦ run_process j k
    | none ↦ run_process k.idle_pid k
  ]

  -- What `scheduling` does after the tick of the current process.
  unfoldable pub after_tick : ℕ → Kernel H → Pcb × Bool → Option (ℕ × Kernel H)
  unfolding choose_next
  after_tick rsp k (p, true) = some (rsp, put_pcb k k.current_index (some p))
  after_tick rsp k (p, false) = choose_next (put_pcb k k.current_index (some p))

  -- The stack pointer to go on with and the new state; `none` is the null pointer of a missing idle
  -- process.
  unfoldable pub scheduling : ℕ → Kernel H → Option (ℕ × Kernel H)
  unfolding choose_next after_tick tick
  scheduling rsp k =
      if k.active_processes == 0
      then some (rsp, k)
      else if is_negative k.current_index
      then choose_next k
      else elim (pcb_at k k.current_index) [
        | none ↦ choose_next k
        | some curr ↦ after_tick rsp k (tick rsp curr)
      ]

  -- `int 20h`: what the stub `_irq00Handler` does with the stack pointer.
  unfoldable pub timer_interrupt : Kernel H → Option (Kernel H)
  unfolding scheduling
  timer_interrupt k = elim (scheduling k.cpu_rsp k) [
    | none ↦ none
    | some (rsp, k') ↦ some (record k' { cpu_rsp = rsp })
  ]

  unfoldable pub give_cpu : Op (Kernel H) (Unit {0})
  unfolding timer_interrupt
  give_cpu k = elim (timer_interrupt k) [ none ↦ fault | some k' ↦ switch k' (done tt) ]

  -- `process_table[i]->yielding = 1; _yield();`
  unfoldable pub yield_as : ℕ → Op (Kernel H) (Unit {0})
  unfolding give_cpu
  yield_as i k = elim (pcb_at k i) [
    | none ↦ fault
    | some p ↦ give_cpu (put_pcb k i (some (record p { yielding = true })))
  ]

  -- With nobody running `get_pid` is -1, and the flag is written through `process_table[-1]`.
  unfoldable pub yield : Op (Kernel H) (Unit {0})
  unfolding yield_as get_pid
  yield k =
      if get_pid k == neg 1
      then if k.stray_write_harmless then give_cpu k else fault
      else yield_as (get_pid k) k

  unfoldable pub last_wish : ℕ → Op (Kernel H) (Unit {0})
  unfolding yield_as
  last_wish pid k = yield_as pid k
