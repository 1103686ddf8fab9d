-- ===== src/Lifecycle/Kill.antt =====
-- `kill_process` with its helpers, of Kernel/proc.c. The pointer to the block of a dead
-- process is followed through its slot.
use tp2_so_2025q.Base.{
  ℕ, zero, suc, ◌-◌, Bool, true, false, not, ◌&&◌, ◌||◌, Option, none, some, List, [], ◌∷◌, ltb,
  ◌==◌, if◌then◌else◌, length, set, add32, sub32, neg, is_negative, lt_int, sign_extend, to_int,
}
use tp2_so_2025q.Text.{codes, strcmp}
use tp2_so_2025q.System.{Kernel, pcb_at, put_pcb}
use tp2_so_2025q.System.Process.{State, Pcb, is_zombie, max_pcs}
use tp2_so_2025q.System.Run.{done, fault, Op, ◌>>=◌, ◌>>◌, pure}
use tp2_so_2025q.Table.{is_pid_valid}
use tp2_so_2025q.Scheduler.{last_wish}
use tp2_so_2025q.Blocking.{unblock_process}
use tp2_so_2025q.Semaphore.{close_all_sems}
use tp2_so_2025q.Pipes.{pipe_read_end, pipe_write_end}
use tp2_so_2025q.Pipes.Transfer.{pipe_close}
use tp2_so_2025q.Lifecycle.{change_pcb, with_pcb, count_active}

abbrev pub mvar_writer : List ℕ
mvar_writer = codes "mvar_writer"

abbrev pub mvar_reader : List ℕ
mvar_reader = codes "mvar_reader"

-- Whether a living process has the name.
unfoldable pub living_named : List ℕ → List (Option Pcb) → Bool
living_named name [] = false
living_named name (none ∷ t) = living_named name t
living_named name (some p ∷ t) =
    let rest = living_named name t in
    if (strcmp name p.name == 0) && not (is_zombie p.state) then true else rest

-- The children without `pid`; the flag says that it was there. An `int` is compared as a `uint64_t`.
unfoldable pub drop_child : ℕ → List ℕ → List ℕ × Bool
drop_child pid [] = ([], false)
drop_child pid (c ∷ cs) =
    let (cs', found) = drop_child pid cs in
    if sign_extend c == pid then (neg 1 ∷ cs, true) else (c ∷ cs', found)

unfoldable pub disown : ℕ → Pcb → Pcb
unfolding drop_child
disown pid p =
    let (cs, found) = drop_child pid p.childs in
    if found then (record p { childs = cs; child_amount = sub32 p.child_amount 1 }) else p

unfoldable pub of_mvar : Pcb → Bool
of_mvar p = (strcmp mvar_writer p.name == 0) || (strcmp mvar_reader p.name == 0)

module _ {H : Type 0} where
  -- The ends that the stream number `i` stands for.
  unfoldable pub close_stream : ℕ → ℕ → Op (Kernel H) (Unit {0})
  close_stream i fd =
      if not (lt_int 2 fd)
      then pure tt
      else if i == 0
      then (do _ ← pipe_close fd pipe_read_end; pure tt)
      else if i == 1
      then (do _ ← pipe_close fd pipe_write_end; pure tt)
      else (do _ ← pipe_close fd pipe_read_end; _ ← pipe_close fd pipe_write_end; pure tt)

  unfoldable pub close_streams : ℕ → List ℕ → Op (Kernel H) (Unit {0})
  unfolding close_stream
  close_streams i [] = pure tt
  close_streams i (fd ∷ fds) = do close_stream i (to_int fd); close_streams (suc i) fds

  unfoldable pub kill_pipes : Pcb → Op (Kernel H) (Unit {0})
  unfolding close_streams
  kill_pipes p = close_streams 0 p.file_descriptors

  -- The parent, where it is in the table, is woken if it waits, and loses the child.
  unfoldable pub leave_parent : ℕ → Pcb → Op (Kernel H) (Unit {0})
  unfolding change_pcb disown
  leave_parent pid p k = elim (pcb_at k p.parent_pid) [
    | none ↦ done tt k
    | some parent ↦
        (do
          _ ← if p.dad_blocked then unblock_process p.parent_pid else pure 0
          change_pcb p.parent_pid (disown pid))
          k
  ]

  -- A write of the child's number into the next place of the idle process.
  unfoldable pub idle_takes : ℕ → Pcb → Op (Kernel H) (Unit {0})
  idle_takes child idle k =
      if not (ltb idle.child_amount (length idle.childs))
      then fault
      else done tt (
          put_pcb k k.idle_pid (
            some (record idle {
              childs = set idle.childs idle.child_amount child;
              child_amount = add32 idle.child_amount 1;
            })))

  -- The loop over the first `child_amount` children, with the rounds left.
  unfoldable pub give_to_idle : ℕ → List ℕ → Op (Kernel H) (Unit {0})
  unfolding idle_takes change_pcb with_pcb
  give_to_idle zero cs k = done tt k
  give_to_idle (suc r) [] k = fault
  give_to_idle (suc r) (c ∷ cs) k =
      (do
        change_pcb c (λ p. record p { parent_pid = sign_extend k.idle_pid })
        with_pcb k.idle_pid (idle_takes c)
        give_to_idle r cs)
        k

  -- Every slot behind the shell's becomes a zombie, its streams closed; `r` slots are left.
  unfoldable pub kill_after : ℕ → ℕ → Op (Kernel H) (Unit {0})
  unfolding kill_pipes change_pcb
  kill_after zero i k = done tt k
  kill_after (suc r) i k = elim (pcb_at k i) [
    | none ↦ kill_after r (suc i) k
    | some p ↦
        (do
          kill_pipes p
          change_pcb i (λ q. record q { state = State.zombie })
          kill_after r (suc i))
          k
  ]

  unfoldable pub end_session : ℕ → Op (Kernel H) (Unit {0})
  unfolding kill_after
  end_session pid k =
      if pid == sign_extend k.shell_pid
      then (do kill_after (max_pcs - suc k.shell_pid) (suc k.shell_pid); close_all_sems) k
      else done tt k

  -- What follows the pipes of a killed process.
  unfoldable pub finish_kill : ℕ → Op (Kernel H) ℕ
  unfolding with_pcb change_pcb leave_parent give_to_idle count_active end_session
  finish_kill pid = do
    with_pcb pid (leave_parent pid)
    with_pcb pid
        (λ p. give_to_idle (if is_negative p.child_amount then 0 else p.child_amount) p.childs)
    change_pcb pid (λ p. record p { child_amount = 0 })
    count_active (neg 1)
    end_session pid
    last_wish (to_int pid)
    pure 0

  -- The living processes with the name, among `r` slots from `i` on, are killed by `kill`.
  unfoldable pub kill_all_of_type :
      (ℕ → Op (Kernel H) ℕ) → ℕ → ℕ → List ℕ → Op (Kernel H) (Unit {0})
  kill_all_of_type kill zero i name k = done tt k
  kill_all_of_type kill (suc r) i name k = elim (pcb_at k i) [
    | none ↦ kill_all_of_type kill r (suc i) name k
    | some p ↦
        if (strcmp p.name name == 0) && not (is_zombie p.state)
        then (do _ ← kill p.pid; kill_all_of_type kill r (suc i) name) k
        else kill_all_of_type kill r (suc i) name k
  ]

  -- The last of a group of readers or writers closes the pipes and kills the other group.
  unfoldable pub kill_mvar : (ℕ → Op (Kernel H) ℕ) → Pcb → Op (Kernel H) (Unit {0})
  unfolding living_named kill_pipes kill_all_of_type
  kill_mvar kill p k =
      if living_named p.name k.process_table
      then done tt k
      else (do
        kill_pipes p
        if strcmp p.name mvar_writer == 0
            then kill_all_of_type kill max_pcs 0 mvar_reader
            else if strcmp p.name mvar_reader == 0
            then kill_all_of_type kill max_pcs 0 mvar_writer
            else pure tt)
          k

  -- `kill_process` may kill the processes of the other group of an mvar, and those calls stand on one
  -- stack: `f` of them fit on it.
  unfoldable pub kill_process : ℕ → ℕ → Op (Kernel H) ℕ
  unfolding change_pcb kill_pipes kill_mvar finish_kill of_mvar
  kill_process zero pid k = fault
  kill_process (suc f) pid k =
      if not (is_pid_valid (to_int pid) k) then done (neg 1) k else elim (pcb_at k pid) [
        | none ↦ fault
        | some p ↦
            if is_zombie p.state
            then done (neg 2) k
            else (do
              change_pcb pid (λ q. record q { state = State.zombie })
              if of_mvar p then kill_mvar (kill_process f) p else kill_pipes p
              finish_kill pid)
                k
      ]
