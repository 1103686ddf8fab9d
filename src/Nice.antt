-- ===== src/Nice.antt =====
-- Priorities and `be_nice` of Kernel/scheduler.c.
pub mod Laws
mod Tests
use tp2_so_2025q.Base.{ℕ, ◌*◌, not, ◌||◌, none, some, ◌==◌, if◌then◌else◌, neg, is_negative, lt_int}
use tp2_so_2025q.Text.{strcmp}
use tp2_so_2025q.Table.{is_pid_valid}
use tp2_so_2025q.Scheduler.{idle_name}
use tp2_so_2025q.System.{Kernel, pcb_at, put_pcb}
use tp2_so_2025q.System.Process.{Priority, Pcb, is_zombie, quantum}
use tp2_so_2025q.System.Run.{done, fault, Op}

unfoldable pub get_max_time_for_priority : Priority → ℕ
get_max_time_for_priority Priority.level_0 = quantum * 5 * 5 * 5 * 5
get_max_time_for_priority Priority.level_1 = quantum * 5 * 5 * 5
get_max_time_for_priority Priority.level_2 = quantum * 5 * 5
get_max_time_for_priority Priority.level_3 = quantum * 5
get_max_time_for_priority Priority.level_4 = quantum * 1
get_max_time_for_priority Priority.level_idle = 1
get_max_time_for_priority (Priority.unknown n) = quantum

unfoldable pub int_to_priority : ℕ → Priority
int_to_priority n =
    if n == 0
    then Priority.level_0
    else if n == 1
    then Priority.level_1
    else if n == 2
    then Priority.level_2
    else if n == 3
    then Priority.level_3
    else if n == 4
    then Priority.level_4
    else if n == 5
    then Priority.level_idle
    else Priority.unknown n

-- The block after a change of priority.
unfoldable pub set_priority : Priority → Pcb → Pcb
unfolding get_max_time_for_priority
set_priority new p = record p { my_prio = new; my_max_time = get_max_time_for_priority new }

module _ {H : Type 0} where
  unfoldable pub be_nice : ℕ → ℕ → Op (Kernel H) ℕ
  unfolding is_pid_valid int_to_priority set_priority
  be_nice pid new_prio k =
      if not (is_pid_valid pid k)
      then done (neg 1) k
      else if is_negative new_prio || lt_int 4 new_prio
      then done (neg 3) k
      else elim (pcb_at k pid) [
        | none ↦ fault
        | some curr ↦
            if is_zombie curr.state
            then done (neg 1) k
            else if strcmp curr.name idle_name == 0
            then done (neg 2) k
            else done 0 (put_pcb k pid (some (set_priority (int_to_priority new_prio) curr)))
      ]
