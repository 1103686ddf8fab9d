-- ===== src/Semaphore/Keeps.antt =====
-- The operations on a semaphore neither fault nor spin, and keep the state good.
use tp2_so_2025q.Base.{
  ℕ, zero, suc, ◌-◌, ◌^◌, ◌<◌, ◌≡◌, ◌≢◌, refl, sym, subst, ap, inl, inr, true, false, not, ◌&&◌,
  some, List, [], ◌∷◌, arith, ltb, ◌==◌, Bool-cases, Option-cases, length, get_or, set, add32,
  sub32, is_negative, lt_int,
}
use tp2_so_2025q.System.{Kernel, Semaphore}
use tp2_so_2025q.System.Run
use tp2_so_2025q.System.Run.{Run, done, fault, spin, switch, Keeps, ends, yields}
use tp2_so_2025q.Table.{get_pid}
use tp2_so_2025q.Scheduler.Good.{Good, KeepsUnless, KeepsUnless-bind, KeepsUnless-map}
use tp2_so_2025q.Blocking.Laws.{block_process-Outcome, unblock_first}
use tp2_so_2025q.Semaphore.{
  slot, find_sem, put_sem, drop_first, wait_or_pass, sem_wait, wake_or_pass, sem_post,
}
use tp2_so_2025q.Semaphore.Invariant.{
  processes_blocked, SemIsValid, AreValid, AreValid-set, find_from-slot, Found, taken, given,
  taken-SemIsValid, enqueue-SemIsValid, drop_first-SemIsValid, given-SemIsValid, running_in-lt,
}

set-set : (ss : List Semaphore) (i : ℕ) (s t : Semaphore) → set (set ss i s) i t ≡ set ss i t
set-set [] i s t = refl
set-set (q ∷ ss) zero s t = refl
set-set (q ∷ ss) (suc i) s t = ap (◌∷◌ q) (set-set ss i s t)

module _ {H : Type 0} where
  pub find_sem-Found :
      (name : List ℕ) (k : Kernel H) (i : ℕ)
      → find_sem name k ≡ some i
      → (s : Semaphore) × Found k.semaphores name i s
  unfolding find_sem
  find_sem-Found name k i e =
      let (d, s, at, there, used, named) = find_from-slot name k.semaphores 0 i e in
      let same : i ≡ d = omega arith in
      (s, record { there = rw same there; used = used; named = named })

  -- The semaphores of a good state may be replaced by valid ones.
  pub Good-put_sem :
      (k : Kernel H) (i : ℕ) (s : Semaphore)
      → Good AreValid k
      → SemIsValid s
      → Good AreValid (put_sem k i s)
  Good-put_sem k i s g v = record {
    table = g.table;
    alive = g.alive;
    sems = AreValid-set k.semaphores i s g.sems v;
  }

  pub get_pid-lt : (k : Kernel H) → get_pid k < 2 ^ 32
  unfolding get_pid
  get_pid-lt k = running_in-lt k.process_table

  wait_or_pass-Outcome :
      (k : Kernel H) (i : ℕ) (s : Semaphore)
      → Good AreValid k
      → SemIsValid s
      → s.initialized ≡ true
      → s.amount_bprocesses < processes_blocked
      → KeepsUnless
          ((is_negative (sub32 s.value 1) ≡ true) × (k.stray_write_harmless ≡ false))
          AreValid
          (wait_or_pass i (taken s) k)
  unfolding wait_or_pass
  wait_or_pass-Outcome k i s g v used room = elim (Bool-cases (is_negative (sub32 s.value 1))) [
    | inr pass ↦ rw pass (inr (ends (Good-put_sem k i _ g (taken-SemIsValid s v used pass))))
    | inl wait ↦
        let fits : ltb s.amount_bprocesses (length s.blocked_processes) ≡ true =
          ground (arith, v.room) in
        rw (wait, fits)
          (KeepsUnless-bind AreValid _ _
            (KeepsUnless-map AreValid _
              (block_process-Outcome AreValid _ (get_pid k) (
                Good-put_sem k i _ g
                  (enqueue-SemIsValid s (get_pid k) (get_pid-lt k) v used room wait)))
              (λ c. (refl, c.1)))
            (λ _ j h. ends h))
  ]

  -- The semaphore has no permit left, and the write before the process table does harm.
  abbrev pub WaitIsStray : List ℕ → Kernel H → Type 0
  WaitIsStray name k =
      (i : ℕ) × (s : Semaphore) × (find_sem name k ≡ some i)
      × (slot k.semaphores i ≡ some s)
      × (is_negative (sub32 s.value 1) ≡ true)
      × (k.stray_write_harmless ≡ false)

  -- `sem_wait` on a good state, where the queue of the semaphore is not full: it never spins, and the
  -- state is good at every switch and at the end. It faults only where no permit is left, so that the
  -- caller blocks itself, and the write of `yield` through `process_table[-1]` is not harmless.
  pub sem_wait-Outcome :
      (name : List ℕ) (k : Kernel H)
      → Good AreValid k
      → ((i : ℕ) (s : Semaphore)
          → find_sem name k ≡ some i
          → slot k.semaphores i ≡ some s
          → s.amount_bprocesses < processes_blocked)
      → KeepsUnless (WaitIsStray name k) AreValid (sem_wait name k)
  unfolding sem_wait
  sem_wait-Outcome name k g room = elim (Option-cases (find_sem name k)) [
    | inl missing ↦ inr (rw (missing, sem_wait) (ends g))
    | inr (i, e) ↦
        let (s, f) = find_sem-Found name k i e in
        let v = g.sems i s f.there in
        let open_lock : (s.lock == 0) ≡ false = ground (arith, v.unlocked f.used) in
        let same : sem_wait name k ≡ wait_or_pass i (taken s) k =
          rw (e, sem_wait, f.there, open_lock) refl in
        subst (KeepsUnless (WaitIsStray name k) AreValid) (sym same) (
          KeepsUnless-map AreValid _ (wait_or_pass-Outcome k i s g v f.used (room i s e f.there))
            (λ c. (i, s, e, f.there, c.0, c.1)))
  ]

  wake_or_pass-Keeps :
      (k : Kernel H) (i : ℕ) (s : Semaphore)
      → Good AreValid k
      → SemIsValid s
      → s.initialized ≡ true
      → s.value ≢ 2 ^ 31 - 1
      → Keeps (Good AreValid) (λ _. Good AreValid) (wake_or_pass i (given s) k)
  unfolding wake_or_pass Run.and_then
  wake_or_pass-Keeps k i s g v used max =
      elim (Bool-cases (not (lt_int 0 (add32 s.value 1)) && lt_int 0 s.amount_bprocesses)) [
        | inr pass ↦
            rw (pass, wake_or_pass)
              (ends (Good-put_sem k i _ g (given-SemIsValid s v used max pass)))
        | inl wake ↦
            let (r, j, ran, g', same) =
              unblock_first (λ ss. ss ≡ set k.semaphores i (drop_first (given s)))
                (put_sem k i (drop_first (given s))) (get_or s.blocked_processes 0 0) (v.pids 0)
                (record { table = g.table; alive = g.alive; sems = refl }) in
            rw (wake, wake_or_pass, ran, Run.and_then)
              (ends (record {
                table = g'.table;
                alive = g'.alive;
                sems =
                    rw (g'.sems, set-set k.semaphores i (drop_first (given s)) _)
                      (AreValid-set k.semaphores i _ g.sems
                        (drop_first-SemIsValid s v used (ground arith) (ground arith)));
              }))
      ]

  -- `sem_post` on a good state, where the count is not at the largest `int`: it never faults and never
  -- spins, and leaves a good state.
  pub sem_post-Keeps :
      (name : List ℕ) (k : Kernel H)
      → Good AreValid k
      → ((i : ℕ) (s : Semaphore)
          → find_sem name k ≡ some i
          → slot k.semaphores i ≡ some s
          → s.value ≢ 2 ^ 31 - 1)
      → Keeps (Good AreValid) (λ _. Good AreValid) (sem_post name k)
  unfolding sem_post
  sem_post-Keeps name k g max = elim (Option-cases (find_sem name k)) [
    | inl missing ↦ rw (missing, sem_post) (ends g)
    | inr (i, e) ↦
        let (s, f) = find_sem-Found name k i e in
        let v = g.sems i s f.there in
        let open_lock : (s.lock == 0) ≡ false = ground (arith, v.unlocked f.used) in
        rw (e, sem_post, f.there, open_lock)
          (wake_or_pass-Keeps k i s g v f.used (max i s e f.there))
  ]
