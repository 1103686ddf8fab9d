-- ===== src/Blocking.antt =====
-- `block_process` and `unblock_process` of Kernel/proc.c.
pub mod Laws
use tp2_so_2025q.Base.{
  ℕ, zero, suc, ◌+◌, ◌*◌, ◌%◌, ◌^◌, Bool, true, false, not, ◌&&◌, ◌||◌, Option, none, some, List,
  [], ◌∷◌, ltb, leb, ◌==◌, if◌then◌else◌, length, get_elem?, set, add32, sub32, neg, is_negative,
  lt_int, to_int,
}
use tp2_so_2025q.Text.{codes, strcmp}
use tp2_so_2025q.Table.{get_pid, is_pid_valid}
use tp2_so_2025q.Scheduler.{yield, idle_name}
use tp2_so_2025q.System.{Kernel, entry, pcb_at, put_pcb}
use tp2_so_2025q.System.Process.{
  State, Priority, Pcb, is_ready, is_running, is_blocked, is_zombie, max_pcs, quantum,
}
use tp2_so_2025q.System.Run.{Run, done, fault, switch, Op, and_then, ◌>>=◌, ◌>>◌, pure}

unfoldable pub unblock_pcb : Pcb → Pcb
unblock_pcb p =
    let less = record p { blocks_amount = sub32 p.blocks_amount 1 } in
    if lt_int 1 p.blocks_amount then less else (record less { state = State.ready })

-- The two live branches of `block_process`: a blocked process stays blocked, another becomes it.
unfoldable pub block_pcb : Pcb → Pcb
block_pcb p = record p { state = State.blocked; blocks_amount = add32 p.blocks_amount 1 }

module _ {H : Type 0} where
  -- `yield(); return 0;`
  unfoldable pub yield_and_return : Op (Kernel H) ℕ
  yield_and_return = do yield; pure 0

  -- `blocks_amount++`, and the process is not to be picked any more; then the caller gives up the CPU.
  unfoldable pub block_process : ℕ → Op (Kernel H) ℕ
  unfolding is_pid_valid
  block_process pid k = if not (is_pid_valid pid k) then done (neg 1) k else elim (pcb_at k pid) [
    | none ↦ fault
    | some p ↦
        if is_ready p.state || (is_running p.state || is_blocked p.state)
        then yield_and_return (put_pcb k pid (some (block_pcb p)))
        else done (neg 2) k
  ]

  -- The argument is a `uint64_t`; the validity test reads it as an `int`.
  unfoldable pub unblock_process : ℕ → Op (Kernel H) ℕ
  unfolding is_pid_valid unblock_pcb
  unblock_process pid k =
      if not (is_pid_valid (to_int pid) k) then done (neg 1) k else elim (pcb_at k pid) [
        | none ↦ fault
        | some p ↦
            if not (is_blocked p.state)
            then done (neg 2) k
            else done 0 (put_pcb k pid (some (unblock_pcb p)))
      ]
