-- ===== src/Scheduler/Dispatch.antt =====
-- Which process runs: at most one, and it is the one that the scheduler chose.
use tp2_so_2025q.Base.{
  ℕ, ◌≡◌, ◌≢◌, refl, ◌∙◌, ◌⊎◌, inl, inr, Bool, true, false, Option, none, some, List, arith,
  Bool-cases, Option-cases, length, set, length-set, is_negative,
}
use tp2_so_2025q.System.{Kernel, entry, pcb_at, put_pcb}
use tp2_so_2025q.System.Entries.{entry-set, entry-lt}
use tp2_so_2025q.System.Process.{Pcb, State, max_pcs}
use tp2_so_2025q.Scheduler.{
  tick, ready_at, find_ready, run_process, choose_next, after_tick, scheduling,
}
use tp2_so_2025q.Scheduler.RoundRobin.{FirstReady, find_ready-FirstReady}

-- `table`: a slot holds a process whose PID is its index, and only `current` may be running. The idle
-- process is there.
pub record TableIsValid (t : List (Option Pcb)) (current idle : ℕ) : Type 0 where
  pub size : length t ≡ max_pcs
  pub ids : (i : ℕ) (p : Pcb) → entry t i ≡ some p → p.pid ≡ i
  pub alone : (i : ℕ) (p : Pcb) → entry t i ≡ some p → p.state ≡ State.running → i ≡ current
  pub idle_there : entry t idle ≢ none

-- Nobody runs.
abbrev pub NoneRuns : List (Option Pcb) → Type 0
NoneRuns t = (i : ℕ) (p : Pcb) → entry t i ≡ some p → p.state ≢ State.running

-- A write of a block into slot `i` keeps the table valid, for a `current` that covers what runs then.
pub TableIsValid-set :
    (t : List (Option Pcb)) (c c' idle i : ℕ) (q : Pcb)
    → TableIsValid t c idle
    → q.pid ≡ i
    → (q.state ≡ State.running → i ≡ c')
    → ((j : ℕ) (p : Pcb) → entry t j ≡ some p → p.state ≡ State.running → j ≢ i → j ≡ c')
    → TableIsValid (set t i (some q)) c' idle
TableIsValid-set t c c' idle i q v id runs others = record {
  size = length-set t i (some q) ∙ v.size;
  ids = λ j p e. ground (arith, entry-set t i j (some q), v.ids j p);
  alone = λ j p e run. ground (arith, entry-set t i j (some q), others j p, entry-lt t j p);
  idle_there = λ e. v.idle_there (ground (arith, entry-set t i idle (some q)));
}

ready_at-some :
    (t : List (Option Pcb)) (i : ℕ) → ready_at t i ≡ true → (p : Pcb) × (entry t i ≡ some p)
unfolding ready_at
ready_at-some t i h = ground arith

-- What a tick leaves: the same process, running only if it stays, and then with the pointer saved.
tick_lem :
    (rsp : ℕ) (p : Pcb)
    → let (q, stays) = tick rsp p in
      (q.pid ≡ p.pid)
      × (q.rsp ≡ rsp)
      × (stays ≡ true → (p.state ≡ State.running) × (q.state ≡ State.running))
      × (stays ≡ false → q.state ≢ State.running)
unfolding tick
tick_lem rsp p = ground arith

module _ {H : Type 0} where
  abbrev pub IsValid : Kernel H → Type 0
  IsValid k = TableIsValid k.process_table k.current_index k.idle_pid

  -- The process at `current_index` runs, and its saved pointer is the one returned.
  abbrev pub Runs : ℕ → Kernel H → Type 0
  Runs r k =
      (p : Pcb) × (pcb_at k k.current_index ≡ some p) × (p.state ≡ State.running) × (p.rsp ≡ r)

  run_process-IsValid :
      (k : Kernel H) (i : ℕ) (p : Pcb)
      → IsValid k
      → NoneRuns k.process_table
      → pcb_at k i ≡ some p
      → (k' : Kernel H) × (run_process i k ≡ some (p.rsp, k')) × IsValid k' × Runs p.rsp k'
  unfolding run_process
  run_process-IsValid k i p v quiet e =
      let q : Pcb = record p { state = State.running } in
      let at : entry (set k.process_table i (some q)) i ≡ some q =
        ground (arith, entry-set k.process_table i i (some q), entry-lt k.process_table i p e) in
      (
        record k { process_table = set k.process_table i (some q); current_index = i },
        rw (e, run_process),
        TableIsValid-set k.process_table k.current_index i k.idle_pid i q v (v.ids i p e)
            (λ _. refl) (λ j b e' run. absurd (quiet j b e' run)),
        (q, at, refl, refl),
      )

  -- With nobody running, the choice puts exactly one process on the CPU.
  pub choose_next-IsValid :
      (k : Kernel H)
      → IsValid k
      → NoneRuns k.process_table
      → (r : ℕ) × (k' : Kernel H) × (choose_next k ≡ some (r, k')) × IsValid k' × Runs r k'
  unfolding choose_next
  choose_next-IsValid k v quiet =
      elim (Option-cases (find_ready max_pcs k.process_table k.current_index)) [
        | inl e ↦ elim (Option-cases (pcb_at k k.idle_pid)) [
          | inl gone ↦ absurd (v.idle_there gone)
          | inr (p, at) ↦
              let (k', ran, v', runs) = run_process-IsValid k k.idle_pid p v quiet at in
              (p.rsp, k', rw (e, choose_next) ran, v', runs)
        ]
        | inr (j, e) ↦
            let first : FirstReady k.process_table k.current_index max_pcs (some j) =
              rw e at (find_ready-FirstReady max_pcs k.process_table k.current_index) in
            let (p, at) = ready_at-some k.process_table j first.3 in
            let (k', ran, v', runs) = run_process-IsValid k j p v quiet at in
            (p.rsp, k', rw (e, choose_next) ran, v', runs)
      ]

  after_tick-IsValid :
      (rsp : ℕ) (k : Kernel H) (p q : Pcb) (stays : Bool)
      → IsValid k
      → pcb_at k k.current_index ≡ some p
      → q.pid ≡ p.pid
      → q.rsp ≡ rsp
      → (stays ≡ true → (p.state ≡ State.running) × (q.state ≡ State.running))
      → (stays ≡ false → q.state ≢ State.running)
      → (r : ℕ) × (k' : Kernel H) × (after_tick rsp k (q, stays) ≡ some (r, k'))
        × IsValid k'
        × Runs r k'
  unfolding after_tick
  after_tick-IsValid rsp k p q true v e id saved stay leave =
      let i = k.current_index in
      let at : entry (set k.process_table i (some q)) i ≡ some q =
        ground (arith, entry-set k.process_table i i (some q), entry-lt k.process_table i p e) in
      (
        rsp,
        put_pcb k i (some q),
        refl,
        TableIsValid-set k.process_table i i k.idle_pid i q v (id ∙ v.ids i p e) (λ _. refl)
            (λ j b e' run ne. v.alone j b e' run),
        (q, at, (stay refl).1, saved),
      )
  after_tick-IsValid rsp k p q false v e id saved stay leave =
      let i = k.current_index in
      choose_next-IsValid (put_pcb k i (some q))
        (TableIsValid-set k.process_table i i k.idle_pid i q v (id ∙ v.ids i p e) (λ _. refl)
          (λ j b e' run ne. v.alone j b e' run))
        (λ j b e' run. ground (
          arith,
          entry-set k.process_table i j (some q),
          entry-lt k.process_table i p e,
          v.alone j b,
          leave refl,
        ))

  -- Nobody runs where the table has nobody at `current_index`.
  quiet_without_current :
      (k : Kernel H) → IsValid k → pcb_at k k.current_index ≡ none → NoneRuns k.process_table
  quiet_without_current k v e i p at run = ground (arith, v.alone i p at run)

  quiet_before_first :
      (k : Kernel H) → IsValid k → is_negative k.current_index ≡ true → NoneRuns k.process_table
  quiet_before_first k v e i p at run =
      ground (arith, v.alone i p at run, entry-lt k.process_table i p at, v.size)

  pub scheduling_quiet :
      (rsp : ℕ) (k : Kernel H)
      → k.active_processes ≢ 0
      → (is_negative k.current_index ≡ true) ⊎ (pcb_at k k.current_index ≡ none)
      → scheduling rsp k ≡ choose_next k
  unfolding scheduling
  scheduling_quiet rsp k alive h = ground arith

  pub scheduling-tick :
      (rsp : ℕ) (k : Kernel H) (p : Pcb)
      → k.active_processes ≢ 0
      → is_negative k.current_index ≡ false
      → pcb_at k k.current_index ≡ some p
      → scheduling rsp k ≡ after_tick rsp k (tick rsp p)
  unfolding scheduling
  scheduling-tick rsp k p alive h e = ground arith

  -- With any process alive and a valid table, `scheduling` returns: exactly one process runs then, the
  -- one at `current_index`, the pointer returned is the one saved for it, and the table is still valid.
  pub scheduling-Runs :
      (rsp : ℕ) (k : Kernel H)
      → k.active_processes ≢ 0
      → IsValid k
      → (r : ℕ) × (k' : Kernel H) × (scheduling rsp k ≡ some (r, k')) × IsValid k' × Runs r k'
  scheduling-Runs rsp k alive v = elim (Bool-cases (is_negative k.current_index)) [
    | inl first ↦
        rw (scheduling_quiet rsp k alive (inl first))
          (choose_next-IsValid k v (quiet_before_first k v first))
    | inr later ↦ elim (Option-cases (pcb_at k k.current_index)) [
      | inl gone ↦
          rw (scheduling_quiet rsp k alive (inr gone))
            (choose_next-IsValid k v (quiet_without_current k v gone))
      | inr (p, at) ↦
          let step = tick_lem rsp p in
          rw (scheduling-tick rsp k p alive later at) (
            after_tick-IsValid rsp k p (tick rsp p).0 (tick rsp p).1 v at step.0 step.1 step.2
              step.3)
    ]
  ]
