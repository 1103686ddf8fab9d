-- ===== src/Scheduler/Good.antt =====
-- The states in which a kernel routine may be entered and left, and that giving up the CPU keeps.
use tp2_so_2025q.Base.{
  ℕ, ◌≡◌, ◌≢◌, refl, sym, ◌∙◌, ◌⊎◌, inl, inr, true, false, none, some, List, arith, ◌==◌,
  Bool-cases, Option-cases, neg,
}
use tp2_so_2025q.System.{Kernel, Semaphore, pcb_at, put_pcb}
use tp2_so_2025q.System.Run.{Run, done, fault, switch, and_then, Keeps, ends, yields, Keeps-bind}
use tp2_so_2025q.System.Entries.{entry-lt}
use tp2_so_2025q.System.Process.{Pcb, State, is_running}
use tp2_so_2025q.Table.{get_pid}
use tp2_so_2025q.Scheduler.{timer_interrupt, give_cpu, yield_as, yield}
use tp2_so_2025q.Scheduler.Dispatch.{TableIsValid-set, IsValid, NoneRuns, scheduling-Runs}
use tp2_so_2025q.Scheduler.Yield.{SameRest, timer_interrupt-SameRest, get_pid-current, get_pid_none}

-- `R` is what is known of the semaphores.
pub record Good {H : Type 0} (R : List Semaphore → Type 0) (k : Kernel H) : Type 0 where
  pub table : IsValid k
  pub alive : k.active_processes ≢ 0
  pub sems : R k.semaphores

-- Somebody runs, and `get_pid` names them; or nobody does, and it is -1.
abbrev pub Running : {H : Type 0} → Kernel H → Type 0
Running k =
    (p : Pcb) × (pcb_at k k.current_index ≡ some p)
    × (p.state ≡ State.running)
    × (get_pid k ≡ k.current_index)

module _ {H : Type 0} where
  quiet_none :
      (k : Kernel H) → IsValid k → pcb_at k k.current_index ≡ none → NoneRuns k.process_table
  quiet_none k v gone i q at run = ground (arith, v.alone i q at run)

  quiet_still :
      (k : Kernel H) (p : Pcb)
      → IsValid k
      → pcb_at k k.current_index ≡ some p
      → is_running p.state ≡ false
      → NoneRuns k.process_table
  quiet_still k p v at still i q at' run = ground (arith, v.alone i q at' run)

  pub somebody_or_nobody :
      (k : Kernel H) → IsValid k → Running k ⊎ (NoneRuns k.process_table × (get_pid k ≡ neg 1))
  somebody_or_nobody k v = elim (Option-cases (pcb_at k k.current_index)) [
    | inl gone ↦ inr (quiet_none k v gone, get_pid_none k (quiet_none k v gone))
    | inr (p, at) ↦ elim (Bool-cases (is_running p.state)) [
      | inl run ↦
          let runs : p.state ≡ State.running = ground arith in
          inl (p, at, runs, get_pid-current k p v at runs)
      | inr still ↦ inr (quiet_still k p v at still, get_pid_none k (quiet_still k p v at still))
    ]
  ]

  -- The timer interrupt on a good state: it returns, and the new state is good and somebody runs.
  pub timer_interrupt-Good :
      (R : List Semaphore → Type 0) (k : Kernel H)
      → Good R k
      → (k' : Kernel H) × (timer_interrupt k ≡ some k') × Good R k' × Running k' × SameRest k k'
  unfolding timer_interrupt
  timer_interrupt-Good R k g =
      let (r, j, found, v, runs) = scheduling-Runs k.cpu_rsp k g.alive g.table in
      let k' = record j { cpu_rsp = r } in
      let e : timer_interrupt k ≡ some k' = rw (found, timer_interrupt) in
      let same = timer_interrupt-SameRest k k' e in
      (
        k',
        e,
        record {
          table = v;
          alive = λ h. g.alive (sym same.active ∙ h);
          sems = rw same.semaphores g.sems;
        },
        (runs.0, runs.1, runs.2, get_pid-current k' runs.0 v runs.1 runs.2),
        same,
      )

  -- The CPU goes to a process of a good state, and the routine ends when it is scheduled again.
  abbrev pub CpuGiven : (List Semaphore → Type 0) → Run (Kernel H) (Unit {0}) → Type 0
  CpuGiven R r = (k' : Kernel H) × (r ≡ switch k' (λ s. done tt s)) × Good R k' × Running k'

  pub CpuGiven-Keeps :
      (R : List Semaphore → Type 0) (r : Run (Kernel H) (Unit {0}))
      → CpuGiven R r
      → Keeps (Good R) (λ _. Good R) r
  CpuGiven-Keeps R r (k', e, g', _) = rw e (yields g' (λ j h. ends h))

  give_cpu-CpuGiven :
      (R : List Semaphore → Type 0) (k : Kernel H) → Good R k → CpuGiven R (give_cpu k)
  unfolding give_cpu
  give_cpu-CpuGiven R k g =
      let (k', e, g', run, _) = timer_interrupt-Good R k g in (k', rw (e, give_cpu) refl, g', run)

  -- A flag on a block keeps the state good.
  pub Good-put :
      (R : List Semaphore → Type 0) (k : Kernel H) (i : ℕ) (p q : Pcb)
      → Good R k
      → pcb_at k i ≡ some p
      → q.pid ≡ p.pid
      → (q.state ≡ State.running → p.state ≡ State.running)
      → Good R (put_pcb k i (some q))
  Good-put R k i p q g at id run = record {
    table =
        TableIsValid-set k.process_table k.current_index k.current_index k.idle_pid i q g.table
          (id ∙ g.table.ids i p at) (λ r. g.table.alone i p at (run r))
          (λ j b e r ne. g.table.alone j b e r);
    alive = g.alive;
    sems = g.sems;
  }

  yield_as-CpuGiven :
      (R : List Semaphore → Type 0) (k : Kernel H) (i : ℕ) (p : Pcb)
      → Good R k
      → pcb_at k i ≡ some p
      → CpuGiven R (yield_as i k)
  unfolding yield_as
  yield_as-CpuGiven R k i p g at =
      let q : Pcb = record p { yielding = true } in
      rw (at, yield_as)
        (give_cpu-CpuGiven R (put_pcb k i (some q)) (Good-put R k i p q g at refl (λ r. r)))

  pub yield_as-Keeps :
      (R : List Semaphore → Type 0) (k : Kernel H) (i : ℕ) (p : Pcb)
      → Good R k
      → pcb_at k i ≡ some p
      → Keeps (Good R) (λ _. Good R) (yield_as i k)
  yield_as-Keeps R k i p g at = CpuGiven-Keeps R (yield_as i k) (yield_as-CpuGiven R k i p g at)

  -- Nobody runs, and the write of `yield` through the word before the process table does harm.
  abbrev pub IsStray : Kernel H → Type 0
  IsStray k = (get_pid k ≡ neg 1) × (k.stray_write_harmless ≡ false)

  pub yield-Outcome :
      (R : List Semaphore → Type 0) (k : Kernel H)
      → Good R k
      → ((yield k ≡ fault) × IsStray k) ⊎ CpuGiven R (yield k)
  unfolding yield
  yield-Outcome R k g = elim (somebody_or_nobody k g.table) [
    | inr (_, e) ↦ elim (Bool-cases k.stray_write_harmless) [
      | inl harmless ↦ inr (simp (e, harmless) (give_cpu-CpuGiven R k g))
      | inr harmful ↦ inl (simp (e, harmful) refl, (e, harmful))
    ]
    | inl (p, at, run, e) ↦
        let real : (k.current_index == neg 1) ≡ false =
          ground (arith, entry-lt k.process_table k.current_index p at, g.table.size) in
        inr (rw (e, real) (yield_as-CpuGiven R k k.current_index p g at))
  ]

  -- A run that keeps the state good, or faults for the reason `C`.
  abbrev pub KeepsUnless :
      {A : Type 0} → Type 0 → (List Semaphore → Type 0) → Run (Kernel H) A → Type 0
  KeepsUnless C R r = ((r ≡ fault) × C) ⊎ Keeps (Good R) (λ _. Good R) r

  pub KeepsUnless-bind :
      {A B C : Type 0} (R : List Semaphore → Type 0) (r : Run (Kernel H) A)
      (f : A → Kernel H → Run (Kernel H) B)
      → KeepsUnless C R r
      → ((a : A) (s : Kernel H) → Good R s → Keeps (Good R) (λ _. Good R) (f a s))
      → KeepsUnless C R (and_then r f)
  unfolding and_then
  KeepsUnless-bind R r f (inl (e, c)) next = inl (rw e refl, c)
  KeepsUnless-bind R r f (inr h) next = inr (Keeps-bind h next)

  pub KeepsUnless-map :
      {A C D : Type 0} (R : List Semaphore → Type 0) (r : Run (Kernel H) A)
      → KeepsUnless C R r
      → (C → D)
      → KeepsUnless D R r
  KeepsUnless-map R r (inl (e, c)) f = inl (e, f c)
  KeepsUnless-map R r (inr h) f = inr h

  pub yield-KeepsUnless :
      (R : List Semaphore → Type 0) (k : Kernel H) → Good R k → KeepsUnless (IsStray k) R (yield k)
  yield-KeepsUnless R k g = elim (yield-Outcome R k g) [
    | inl stray ↦ inl stray
    | inr given ↦ inr (CpuGiven-Keeps R (yield k) given)
  ]
