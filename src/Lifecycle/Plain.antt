-- ===== src/Lifecycle/Plain.antt =====
-- `kill_process` of a process without pipes, children or a waiting parent.
use tp2_so_2025q.Base.{
  ℕ, suc, ◌^◌, ◌<◌, ◌≡◌, ◌≢◌, refl, sym, ◌∙◌, inl, inr, true, false, some, List, [], ◌∷◌, arith,
  ◌==◌, if◌then◌else◌, Option-cases, get_or, add32, neg, is_negative, lt_int, sign_extend, to_int,
}
use tp2_so_2025q.System.{Kernel, Semaphore, pcb_at, put_pcb}
use tp2_so_2025q.System.Entries.{entry-set, entry-lt}
use tp2_so_2025q.System.Process.{State, Pcb, is_zombie, max_pcs}
use tp2_so_2025q.System.Run.{Run, done, Keeps, ends, Keeps-bind, and_then}
use tp2_so_2025q.Table.{is_pid_valid}
use tp2_so_2025q.Scheduler.{last_wish}
use tp2_so_2025q.Scheduler.Good.{Good, Good-put, yield_as-Keeps}
use tp2_so_2025q.Lifecycle.{change_pcb, with_pcb, count_active}
use tp2_so_2025q.Lifecycle.Kill.{
  close_stream, close_streams, kill_pipes, disown, leave_parent, give_to_idle, end_session,
  finish_kill, of_mvar, kill_process,
}

-- Killing the process touches no other process than its parent.
pub record IsPlain (p : Pcb) : Type 0 where
  pub living : is_zombie p.state ≡ false
  pub no_streams : (j : ℕ) → lt_int 2 (to_int (get_or p.file_descriptors j 0)) ≡ false
  pub no_mvar : of_mvar p ≡ false
  pub childless : p.child_amount ≡ 0
  pub unawaited : p.dad_blocked ≡ false

disown_keeps : (pid : ℕ) (p : Pcb) → ((disown pid p).pid ≡ p.pid) × ((disown pid p).state ≡ p.state)
unfolding disown
disown_keeps pid p = ground arith

module _ {H : Type 0} where
  close_streams_none :
      (i : ℕ) (fds : List ℕ) (k : Kernel H)
      → ((j : ℕ) → lt_int 2 (to_int (get_or fds j 0)) ≡ false)
      → close_streams i fds k ≡ done tt k
  unfolding close_streams and_then
  close_streams_none i [] k quiet = refl
  close_streams_none i (fd ∷ fds) k quiet =
      rw (quiet 0, close_stream, and_then, close_streams_none (suc i) fds k (λ j. quiet (suc j)))
        refl

  change_pcb_at :
      (i : ℕ) (f : Pcb → Pcb) (k : Kernel H) (p : Pcb)
      → pcb_at k i ≡ some p
      → change_pcb i f k ≡ done tt (put_pcb k i (some (f p)))
  unfolding change_pcb
  change_pcb_at i f k p e = rw (e, change_pcb) refl

  with_pcb_at :
      {A : Type 0} (i : ℕ) (f : Pcb → Kernel H → Run (Kernel H) A) (k : Kernel H) (p : Pcb)
      → pcb_at k i ≡ some p
      → with_pcb i f k ≡ f p k
  unfolding with_pcb
  with_pcb_at i f k p e = rw (e, with_pcb) refl

  -- Between two steps of the kill: a good state, with the dead process `q` in its slot.
  record Dying (R : List Semaphore → Type 0) (k : Kernel H) (pid : ℕ) (k' : Kernel H) : Type 0 where
    good : Good R k'
    block : Pcb
    at : pcb_at k' pid ≡ some block
    dead : block.state ≡ State.zombie
    childless : block.child_amount ≡ 0
    active : k'.active_processes ≡ k.active_processes
    shell : k'.shell_pid ≡ k.shell_pid

  -- The parent's step.
  leave_parent-Dying :
      (R : List Semaphore → Type 0) (k k' : Kernel H) (pid : ℕ) (p : Pcb)
      → Dying R k pid k'
      → p.dad_blocked ≡ false
      → p.parent_pid ≢ pid
      → (k'' : Kernel H) × (leave_parent pid p k' ≡ done tt k'') × Dying R k pid k''
  unfolding leave_parent and_then
  leave_parent-Dying R k k' pid p d calm apart = elim (Option-cases (pcb_at k' p.parent_pid)) [
    | inl gone ↦ (k', rw (gone, leave_parent) refl, d)
    | inr (parent, at) ↦
        let (same_pid, same_state) = disown_keeps pid parent in
        (
          put_pcb k' p.parent_pid (some (disown pid parent)),
          rw
              (
                at,
                leave_parent,
                calm,
                and_then,
                change_pcb_at p.parent_pid (disown pid) k' parent at,
              )
              refl,
          record {
            good =
                Good-put R k' p.parent_pid parent (disown pid parent) d.good at same_pid
                  (λ r. sym same_state ∙ r);
            block = d.block;
            at = ground (
              arith,
              entry-set k'.process_table p.parent_pid pid (some (disown pid parent)),
              d.at,
              apart,
            );
            dead = d.dead;
            childless = d.childless;
            active = d.active;
            shell = d.shell;
          },
        )
  ]

  last_wish-Keeps :
      (R : List Semaphore → Type 0) (k : Kernel H) (pid : ℕ) (p : Pcb)
      → Good R k
      → pcb_at k pid ≡ some p
      → Keeps (Good R) (λ _. Good R) (last_wish pid k)
  unfolding last_wish
  last_wish-Keeps R k pid p g at = yield_as-Keeps R k pid p g at

  finish_kill-Keeps :
      (R : List Semaphore → Type 0) (k k' : Kernel H) (pid : ℕ)
      → (d : Dying R k pid k') → pid < max_pcs
      → 1 < k.active_processes
      → k.active_processes < 2 ^ 32
      → pid ≢ sign_extend k.shell_pid
      → d.block.dad_blocked ≡ false
      → d.block.parent_pid ≢ pid
      → Keeps (Good R) (λ _. Good R) (finish_kill pid k')
  unfolding finish_kill and_then give_to_idle count_active end_session
  finish_kill-Keeps R k k' pid d near many fits not_shell calm apart =
      let (k1, e1, d1) = leave_parent-Dying R k k' pid d.block d calm apart in
      let k2 = put_pcb k1 pid (some (record d1.block { child_amount = 0 })) in
      let g2 : Good R k2 = Good-put R k1 pid d1.block _ d1.good d1.at refl (λ r. r) in
      let k3 = record k2 { active_processes = add32 k1.active_processes (neg 1) } in
      let g3 : Good R k3 = record {
        table = g2.table;
        alive = λ e. omega (arith, d1.active);
        sems = g2.sems;
      } in
      let at3 : pcb_at k3 pid ≡ some (record d1.block { child_amount = 0 }) = ground (
        arith,
        entry-set k1.process_table pid pid (some (record d1.block { child_amount = 0 })),
        entry-lt k1.process_table pid d1.block d1.at,
      ) in
      let stays : (pid == sign_extend k1.shell_pid) ≡ false = ground (arith, d1.shell) in
      let low : to_int pid ≡ pid = omega arith in
      rw
        (
          with_pcb_at pid (leave_parent pid) k' d.block d.at,
          e1,
          and_then,
          with_pcb_at pid
              (λ p.
                give_to_idle (if is_negative p.child_amount then 0 else p.child_amount) p.childs)
              k1 d1.block d1.at,
          d1.childless,
          change_pcb_at pid (λ p. record p { child_amount = 0 }) k1 d1.block d1.at,
          stays,
          low,
        )
        (Keeps-bind (last_wish-Keeps R k3 pid _ g3 at3) (λ _ j h. ends h))

  -- In a good state with another process alive, killing a living process that is no shell, none of
  -- the two kinds of `mvar` and not its own parent, has no pipes and no children, and that no parent
  -- waits for, never faults, leaves a good state at the switch, and returns with a good state,
  -- should it be scheduled again.
  pub kill_process_plain :
      (R : List Semaphore → Type 0) (f : ℕ) (k : Kernel H) (pid : ℕ) (p : Pcb)
      → Good R k
      → pid < max_pcs
      → pcb_at k pid ≡ some p
      → IsPlain p
      → 1 < k.active_processes
      → k.active_processes < 2 ^ 32
      → pid ≢ sign_extend k.shell_pid
      → p.parent_pid ≢ pid
      → Keeps (Good R) (λ _. Good R) (kill_process (suc f) pid k)
  unfolding kill_process kill_pipes is_pid_valid and_then
  kill_process_plain R f k pid p g near at plain many fits not_shell apart =
      let q : Pcb = record p { state = State.zombie } in
      let k' = put_pcb k pid (some q) in
      let d : Dying R k pid k' = record {
        good = Good-put R k pid p q g at refl (λ e. ground arith);
        block = q;
        at =
            ground (
              arith,
              entry-set k.process_table pid pid (some q),
              entry-lt k.process_table pid p at,
            );
        dead = refl;
        childless = plain.childless;
        active = refl;
        shell = refl;
      } in
      let low : to_int pid ≡ pid = omega arith in
      let valid : is_pid_valid pid k ≡ true = ground arith in
      rw
        (
          low,
          kill_process,
          valid,
          at,
          plain.living,
          change_pcb_at pid (λ q. record q { state = State.zombie }) k p at,
          and_then,
          plain.no_mvar,
          close_streams_none 0 p.file_descriptors k' plain.no_streams,
        )
        (finish_kill-Keeps R k k' pid d near many fits not_shell plain.unawaited apart)
