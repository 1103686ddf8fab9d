-- ===== src/Lifecycle/Wait.antt =====
-- `wait` of Kernel/proc.c. The pointer to the block of the target is followed through its slot.
use tp2_so_2025q.Base.{ℕ, true, not, none, if◌then◌else◌, neg, to_int}
use tp2_so_2025q.System.{Kernel}
use tp2_so_2025q.System.Process.{Pcb, is_zombie}
use tp2_so_2025q.System.Run.{done, Op, ◌>>=◌, ◌>>◌, pure}
use tp2_so_2025q.Table.{is_pid_valid}
use tp2_so_2025q.Blocking.{block_process}
use tp2_so_2025q.Lifecycle.{Manager, change_pcb, with_pcb, set_slot, free_process}

module _ {H : Type 0} (m : Manager H) where
  unfoldable pub reap : ℕ → Pcb → Op (Kernel H) ℕ
  unfolding free_process
  reap target p = do free_process m p; set_slot target none; pure 0

  unfoldable pub wait : ℕ → ℕ → Op (Kernel H) ℕ
  unfolding with_pcb change_pcb reap
  wait target_pid my_pid k =
      if not (is_pid_valid (to_int target_pid) k)
      then done (neg 1) k
      else if not (is_pid_valid (to_int my_pid) k)
      then done (neg 2) k
      else with_pcb target_pid
          (λ target. if is_zombie target.state then reap target_pid target else (do
            change_pcb target_pid (λ p. record p { dad_blocked = true })
            _ ← block_process (to_int my_pid)
            with_pcb target_pid (reap target_pid)))
          k
