-- ===== src/Semaphore/Open.antt =====
-- `sem_open_init` and `sem_close` keep the state good.
use tp2_so_2025q.Base.{
  ℕ, zero, suc, ◌+◌, ◌-◌, ◌^◌, ◌<◌, ◌≡◌, refl, ap, inl, inr, false, some, List, [], ◌∷◌, ◌∙◌, arith,
  Bool-cases, Option-cases, length, length-set, replicate, sub32, lt_int,
}
use tp2_so_2025q.Text.Compare.{strncpy_lem}
use tp2_so_2025q.System.{Kernel, Semaphore}
use tp2_so_2025q.System.Run.{Keeps, ends}
use tp2_so_2025q.Scheduler.Good.{Good}
use tp2_so_2025q.Semaphore.{
  max_name_length, slot, find_free, clear_all, fresh_sem, closed, find_sem, init_sems, open_new,
  open_or_join, sem_open_init, sem_close,
}
use tp2_so_2025q.Semaphore.Invariant.{SemIsValid, AreValid}
use tp2_so_2025q.Semaphore.Keeps.{find_sem-Found, Good-put_sem}

unused-SemIsValid : (s : Semaphore) → SemIsValid s → SemIsValid (record s { initialized = false })
unused-SemIsValid s v = record {
  named = v.named;
  small = v.small;
  room = v.room;
  bound = v.bound;
  pids = v.pids;
  unlocked = λ u. ground arith;
  balance = λ u. ground arith;
}

AreValid-clear_all : (ss : List Semaphore) → AreValid ss → AreValid (clear_all ss)
unfolding clear_all
AreValid-clear_all [] all i q e = ground arith
AreValid-clear_all (s ∷ ss) all zero q e =
    let same : record s { initialized = false } ≡ q = ground arith in
    rw (← same) (unused-SemIsValid s (all 0 s refl))
AreValid-clear_all (s ∷ ss) all (suc i) q e = AreValid-clear_all ss (λ j r h. all (suc j) r h) i q e

-- What `find_free` finds is there.
find_free-slot :
    (ss : List Semaphore) (i j : ℕ)
    → find_free ss i ≡ some j
    → (d : ℕ) × (s : Semaphore) × (j ≡ i + d) × (slot ss d ≡ some s)
unfolding find_free
find_free-slot [] i j e = ground arith
find_free-slot (s ∷ ss) i j e = elim (Bool-cases s.initialized) [
  | inr free ↦ (0, s, ground arith, refl)
  | inl used ↦
      let (d, q, at, there) = find_free-slot ss (suc i) j (ground arith) in
      (suc d, q, omega arith, there)
]

fresh_sem-SemIsValid :
    (s : Semaphore) (copy : List ℕ) (value : ℕ)
    → SemIsValid s
    → length copy ≡ max_name_length
    → value < 2 ^ 31
    → SemIsValid (fresh_sem s copy value)
unfolding fresh_sem
fresh_sem-SemIsValid s copy value v size small = record {
  named = length-set copy (max_name_length - 1) 0 ∙ size;
  small = omega arith;
  room = v.room;
  bound = omega arith;
  pids = v.pids;
  unlocked = λ u. refl;
  balance = λ u. ground arith;
}

joined-SemIsValid :
    (s : Semaphore) (n : ℕ) → SemIsValid s → SemIsValid (record s { amount_sem_openings = n })
joined-SemIsValid s n v = record {
  named = v.named;
  small = v.small;
  room = v.room;
  bound = v.bound;
  pids = v.pids;
  unlocked = v.unlocked;
  balance = v.balance;
}

length-replicate : (n : ℕ) → length {A = ℕ} (replicate n 0) ≡ n
length-replicate zero = refl
length-replicate (suc n) = ap suc (length-replicate n)

closed-SemIsValid : (s : Semaphore) → SemIsValid s → SemIsValid (closed s)
unfolding closed
closed-SemIsValid s v = elim (Bool-cases (lt_int 0 (sub32 s.amount_sem_openings 1))) [
  | inl others ↦ rw others (joined-SemIsValid s (sub32 s.amount_sem_openings 1) v)
  | inr last ↦ rw last (record {
    named = length-replicate 32;
    small = omega arith;
    room = v.room;
    bound = v.bound;
    pids = v.pids;
    unlocked = λ u. ground arith;
    balance = λ u. ground arith;
  })
]

module _ {H : Type 0} where
  init_sems-Good : (k : Kernel H) → Good AreValid k → Good AreValid (init_sems k)
  unfolding init_sems
  init_sems-Good k g = elim (Bool-cases k.sem_init) [
    | inl later ↦ simp later g
    | inr first ↦
        simp first (record {
          table = g.table;
          alive = g.alive;
          sems = AreValid-clear_all k.semaphores g.sems;
        })
  ]

  open_new-Keeps :
      (name : List ℕ) (value : ℕ) (k : Kernel H)
      → Good AreValid k
      → value < 2 ^ 31
      → Keeps (Good AreValid) (λ _. Good AreValid) (open_new name value k)
  unfolding open_new
  open_new-Keeps name value k g small = elim (Option-cases (find_free k.semaphores 0)) [
    | inl full ↦ rw (full, open_new) (ends g)
    | inr (i, e) ↦
        let (d, s, at, there) = find_free-slot k.semaphores 0 i e in
        let here : i ≡ d = omega arith in
        let found : slot k.semaphores i ≡ some s = ap (slot k.semaphores) here ∙ there in
        let v = g.sems i s found in
        let (copy, copied, size, _) =
          strncpy_lem s.name name (max_name_length - 1) (omega (arith, v.named)) in
        rw (e, open_new, found, copied)
          (ends (Good-put_sem k i _ g (fresh_sem-SemIsValid s copy value v (size ∙ v.named) small)))
  ]

  -- `sem_open_init` on a good state, with a value that an `int` holds, returns and keeps it good: with
  -- the name in use, with a slot left, and with none.
  pub sem_open_init-Keeps :
      (name : List ℕ) (value : ℕ) (k : Kernel H)
      → Good AreValid k
      → value < 2 ^ 31
      → Keeps (Good AreValid) (λ _. Good AreValid) (sem_open_init name value k)
  unfolding sem_open_init
  sem_open_init-Keeps name value k g small =
      let k' = init_sems k in
      let g' = init_sems-Good k g in
      elim (Option-cases (find_sem name k')) [
        | inl new ↦ rw (new, sem_open_init, open_or_join) (open_new-Keeps name value k' g' small)
        | inr (i, e) ↦
            let (s, f) = find_sem-Found name k' i e in
            rw (e, sem_open_init, open_or_join, f.there)
              (ends (Good-put_sem k' i _ g' (joined-SemIsValid s _ (g'.sems i s f.there))))
      ]

  -- `sem_close` on a good state returns and keeps it good, whether the name is in use, and whether
  -- others have it open.
  pub sem_close-Keeps :
      (name : List ℕ) (k : Kernel H)
      → Good AreValid k
      → Keeps (Good AreValid) (λ _. Good AreValid) (sem_close name k)
  unfolding sem_close
  sem_close-Keeps name k g = elim (Option-cases (find_sem name k)) [
    | inl missing ↦ rw (missing, sem_close) (ends g)
    | inr (i, e) ↦
        let (s, f) = find_sem-Found name k i e in
        rw (e, sem_close, f.there)
          (ends (Good-put_sem k i (closed s) g (closed-SemIsValid s (g.sems i s f.there))))
  ]
