-- ===== src/Blocking/Laws.antt =====
-- What `block_process` and `unblock_process` do to a process, on every branch.
use tp2_so_2025q.Base.{
  ℕ, zero, suc, ◌-◌, ◌^◌, ◌≤◌, ◌<◌, ◌≡◌, ◌≢◌, ◌⊎◌, refl, sym, ◌∙◌, subst, inl, inr, true, false,
  ◌||◌, some, List, arith, ◌==◌, ==→eq, if◌then◌else◌, Bool-cases, neg, is_negative, to_int,
  sign_extend,
}
use tp2_so_2025q.System.{Kernel, Semaphore, pcb_at, put_pcb}
use tp2_so_2025q.System.Run
use tp2_so_2025q.System.Run.{Run, done, fault, switch, pure, ◌>>=◌, ◌>>◌, Keeps, ends, yields}
use tp2_so_2025q.System.Entries.{entry-set, entry-lt}
use tp2_so_2025q.System.Process.{Pcb, State, is_running, is_ready, is_blocked, max_pcs}
use tp2_so_2025q.Table.{get_pid, is_pid_valid}
use tp2_so_2025q.Scheduler.Dispatch.{IsValid}
use tp2_so_2025q.Scheduler.Yield.{get_pid_none, get_pid-current}
use tp2_so_2025q.Scheduler.Good.{
  Good, Good-put, somebody_or_nobody, IsStray, KeepsUnless, KeepsUnless-bind, KeepsUnless-map,
  yield-KeepsUnless,
}
use tp2_so_2025q.Scheduler.{yield}
use tp2_so_2025q.Blocking.{block_process, unblock_process, unblock_pcb, block_pcb, yield_and_return}

module _ {H : Type 0} where
  pub is_pid_valid-some :
      (k : Kernel H) (pid : ℕ)
      → is_pid_valid pid k ≡ true
      → (p : Pcb) × (pcb_at k pid ≡ some p) × (pid < max_pcs)
  unfolding is_pid_valid
  is_pid_valid-some k pid h = ground arith

  yield_and_return-Outcome :
      (R : List Semaphore → Type 0) (k : Kernel H)
      → Good R k
      → KeepsUnless (IsStray k) R (yield_and_return k)
  unfolding yield_and_return
  yield_and_return-Outcome R k g =
      KeepsUnless-bind R (yield k) (λ _. pure 0) (yield-KeepsUnless R k g) (λ _ j h. ends h)

  -- The caller is the process to block, or nobody runs, and the write before the table does harm.
  abbrev pub CallerBlocks : Kernel H → ℕ → Type 0
  CallerBlocks k pid = ((pid ≡ get_pid k) ⊎ (get_pid k ≡ neg 1)) × (k.stray_write_harmless ≡ false)

  block_process_invalid :
      (k : Kernel H) (pid : ℕ) → is_pid_valid pid k ≡ false → block_process pid k ≡ done (neg 1) k
  unfolding block_process
  block_process_invalid k pid h = rw h

  block_process_valid :
      (k : Kernel H) (pid : ℕ) (p : Pcb)
      → is_pid_valid pid k ≡ true
      → pcb_at k pid ≡ some p
      → block_process pid k ≡ (
          if is_ready p.state || (is_running p.state || is_blocked p.state)
          then yield_and_return (put_pcb k pid (some (block_pcb p)))
          else done (neg 2) k)
  unfolding block_process
  block_process_valid k pid p h at = rw (h, at, block_process)

  -- Blocking a process leaves nobody on the CPU only where it was the one, or nobody was there.
  self_blocked :
      (R : List Semaphore → Type 0) (k : Kernel H) (pid : ℕ) (p : Pcb)
      → Good R k
      → pcb_at k pid ≡ some p
      → pid < max_pcs
      → IsStray (put_pcb k pid (some (block_pcb p)))
      → CallerBlocks k pid
  unfolding block_pcb
  self_blocked R k pid p g at low (nobody, harmful) = elim (somebody_or_nobody k g.table) [
    | inr (_, e) ↦ (inr e, harmful)
    | inl (q, there, run, e) ↦ elim (Bool-cases (pid == k.current_index)) [
      | inl same ↦ (inl (==→eq pid k.current_index same ∙ sym e), harmful)
      | inr other ↦
          let k' = put_pcb k pid (some (block_pcb p)) in
          let g' = Good-put R k pid p (block_pcb p) g at refl (λ r. ground arith) in
          let apart : pid ≢ k.current_index = ground arith in
          let still : pcb_at k' k.current_index ≡ some q =
            ground (arith, entry-set k.process_table pid k.current_index (some (block_pcb p))) in
          let current = get_pid-current k' q g'.table still run in
          absurd (
            omega (
              arith,
              current,
              nobody,
              entry-lt k.process_table k.current_index q there,
              g.table.size,
            ))
    ]
  ]

  -- On a good state `block_process` returns on every branch and keeps the state good. It faults only
  -- where the caller blocks itself, or nobody runs, and the write of `yield` through
  -- `process_table[-1]` is not harmless.
  pub block_process-Outcome :
      (R : List Semaphore → Type 0) (k : Kernel H) (pid : ℕ)
      → Good R k
      → KeepsUnless (CallerBlocks k pid) R (block_process pid k)
  unfolding block_pcb
  block_process-Outcome R k pid g = elim (Bool-cases (is_pid_valid pid k)) [
    | inr bad ↦ rw (block_process_invalid k pid bad) (inr (ends g))
    | inl valid ↦
        let (p, at, low) = is_pid_valid-some k pid valid in
        rw (block_process_valid k pid p valid at)
          (elim (Bool-cases (is_ready p.state || (is_running p.state || is_blocked p.state))) [
            | inl live ↦ rw live (
                KeepsUnless-map R _
                  (yield_and_return-Outcome R (put_pcb k pid (some (block_pcb p)))
                    (Good-put R k pid p (block_pcb p) g at refl (λ e. ground arith)))
                  (self_blocked R k pid p g at low))
            | inr dead ↦ rw dead (inr (ends g))
          ])
  ]

  -- When the process on the CPU blocks itself, nobody runs at the `yield`
  -- behind it, so `get_pid` is -1 there.
  pub get_pid_self_blocked :
      (k : Kernel H) (p q : Pcb)
      → IsValid k
      → pcb_at k k.current_index ≡ some p
      → q.state ≢ State.running
      → get_pid (put_pcb k k.current_index (some q)) ≡ neg 1
  get_pid_self_blocked k p q v at still =
      get_pid_none (put_pcb k k.current_index (some q)) (λ i b e run. ground (
        arith,
        entry-set k.process_table k.current_index i (some q),
        entry-lt k.process_table k.current_index p at,
        v.alone i b,
      ))

-- What `n` unblocks leave of a process: the count is down by `n`, and only at 0 it is ready.
pub record Unblocked (p : Pcb) (n : ℕ) (q : Pcb) : Type 0 where
  pub count : q.blocks_amount ≡ p.blocks_amount - n
  pub state : q.state ≡ (if n == p.blocks_amount then State.ready else State.blocked)
  pub same_pid : q.pid ≡ p.pid

Unblocked-suc :
    (p q : Pcb) (n : ℕ)
    → suc n ≤ p.blocks_amount
    → p.blocks_amount < 2 ^ 31
    → Unblocked p n q
    → (q.state ≡ State.blocked) × Unblocked p (suc n) (unblock_pcb q)
unfolding unblock_pcb
Unblocked-suc p q n le small u = ground arith

module _ {H : Type 0} where
  unblock_process_valid :
      (k : Kernel H) (pid : ℕ) (p : Pcb)
      → pid < max_pcs
      → pcb_at k pid ≡ some p
      → p.state ≡ State.blocked
      → unblock_process pid k ≡ done 0 (put_pcb k pid (some (unblock_pcb p)))
  unfolding unblock_process is_pid_valid
  unblock_process_valid k pid p lt at blocked =
      let low : to_int pid ≡ pid = omega arith in ground arith

  -- `n` calls of `unblock_process` in a row.
  pub unblock_times : ℕ → ℕ → Run.Op (Kernel H) (Unit {0})
  unblock_times zero pid = pure tt
  unblock_times (suc n) pid = do unblock_times n pid; _ ← unblock_process pid; pure tt

  -- Blocks are counted: of a process that was blocked `b` times, the first `b - 1` calls of
  -- `unblock_process` leave it blocked, and the last one makes it ready with no block left. The other
  -- slots of the table stay as they are.
  pub unblock_times_exact :
      (n pid : ℕ) (k : Kernel H) (p : Pcb)
      → pid < max_pcs
      → pcb_at k pid ≡ some p
      → p.state ≡ State.blocked
      → p.blocks_amount < 2 ^ 31
      → n ≤ p.blocks_amount
      → 0 < p.blocks_amount
      → (q : Pcb) × (k' : Kernel H) × (unblock_times n pid k ≡ done tt k')
        × (pcb_at k' pid ≡ some q)
        × Unblocked p n q
        × ((j : ℕ) → j ≢ pid → pcb_at k' j ≡ pcb_at k j)
  unfolding unblock_times Run.and_then
  unblock_times_exact zero pid k p lt at blocked small le pos =
      (p, k, refl, at, ground arith, λ j ne. refl)
  unblock_times_exact (suc n) pid k p lt at blocked small le pos =
      let (q, k', ran, at', u, others) =
        unblock_times_exact n pid k p lt at blocked small (omega arith) pos in
      let (blocked', u') = Unblocked-suc p q n le small u in
      (
        unblock_pcb q,
        put_pcb k' pid (some (unblock_pcb q)),
        rw (ran, Run.and_then, unblock_process_valid k' pid q lt at' blocked'),
        ground (
          arith,
          entry-set k'.process_table pid pid (some (unblock_pcb q)),
          entry-lt k'.process_table pid q at',
        ),
        u',
        λ j ne.
            ground (arith, entry-set k'.process_table pid j (some (unblock_pcb q)), others j ne),
      )

  -- `unblock_process` of a PID that an `int` holds ends at once on a good state, and keeps it good.
  pub unblock_process_done :
      (R : List Semaphore → Type 0) (k : Kernel H) (pid : ℕ)
      → pid < 2 ^ 32
      → Good R k
      → (r : ℕ) × (k' : Kernel H) × (unblock_process pid k ≡ done r k')
        × Good R k'
        × (k'.semaphores ≡ k.semaphores)
  unfolding unblock_process unblock_pcb
  unblock_process_done R k pid fits g =
      let low : to_int pid ≡ pid = omega arith in
      elim (Bool-cases (is_pid_valid pid k)) [
        | inr bad ↦ (neg 1, k, ground arith, g, refl)
        | inl valid ↦
            let (p, at, _) = is_pid_valid-some k pid valid in
            elim (Bool-cases (is_blocked p.state)) [
              | inr other ↦ (neg 2, k, ground arith, g, refl)
              | inl blocked ↦ (
                0,
                put_pcb k pid (some (unblock_pcb p)),
                ground arith,
                Good-put R k pid p (unblock_pcb p) g at (ground arith) (λ e. ground arith),
                refl,
              )
            ]
      ]

  -- The same of an `int` that is passed on as a `uint64_t`: a negative one is no valid PID.
  pub unblock_first :
      (R : List Semaphore → Type 0) (k : Kernel H) (w : ℕ)
      → w < 2 ^ 32
      → Good R k
      → (r : ℕ) × (k' : Kernel H) × (unblock_process (sign_extend w) k ≡ done r k')
        × Good R k'
        × (k'.semaphores ≡ k.semaphores)
  unfolding unblock_process is_pid_valid
  unblock_first R k w fits g = elim (Bool-cases (is_negative w)) [
    | inr pos ↦
        let same : w ≡ sign_extend w = ground arith in
        subst
          (λ v.
            (r : ℕ) × (k' : Kernel H) × (unblock_process v k ≡ done r k')
            × Good R k'
            × (k'.semaphores ≡ k.semaphores))
          same (unblock_process_done R k w fits g)
    | inl minus ↦
        let same : to_int (sign_extend w) ≡ w = ground arith in (neg 1, k, ground arith, g, refl)
  ]
