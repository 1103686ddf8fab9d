-- ===== src/Table.antt =====
-- The lookups of Kernel/proc.c: `get_pid`, `is_pid_valid` and the two distinguished processes.
use tp2_so_2025q.Base.{
  ℕ, Bool, true, false, ◌||◌, Option, none, some, List, [], ◌∷◌, leb, if◌then◌else◌, neg,
  is_negative, to_int,
}
use tp2_so_2025q.System.{Kernel, pcb_at}
use tp2_so_2025q.System.Process.{Pcb, is_running, max_pcs}

unfoldable pub running_in : List (Option Pcb) → ℕ
running_in [] = neg 1
running_in (none ∷ t) = running_in t
running_in (some p ∷ t) = if is_running p.state then to_int p.pid else running_in t

module _ {H : Type 0} where
  -- The PID of the first running process, or -1.
  unfoldable pub get_pid : Kernel H → ℕ
  unfolding running_in
  get_pid k = running_in k.process_table

  unfoldable pub is_pid_valid : ℕ → Kernel H → Bool
  is_pid_valid pid k =
      if is_negative pid || leb max_pcs pid
      then false
      else elim (pcb_at k pid) [ none ↦ false | some p ↦ true ]

  abbrev pub get_shell_pid : Kernel H → ℕ
  get_shell_pid k = k.shell_pid

  abbrev pub get_idle_pid : Kernel H → ℕ
  get_idle_pid k = k.idle_pid
