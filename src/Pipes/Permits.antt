-- ===== src/Pipes/Permits.antt =====
-- Semaphores that nobody waits on: `sem_wait` and `sem_post` then only count, and the CPU stays.
use tp2_so_2025q.Base.{
  ℕ, zero, suc, ◌^◌, ◌<◌, ◌≡◌, ◌≢◌, refl, ◌∙◌, false, not, ◌&&◌, some, List, [], ◌∷◌, arith, ◌==◌,
  length, set, add32, sub32, is_negative, lt_int,
}
use tp2_so_2025q.System.{Kernel, Semaphore}
use tp2_so_2025q.System.Run.{done}
use tp2_so_2025q.Semaphore.{
  slot, find_from, find_sem, put_sem, wait_or_pass, wake_or_pass, sem_wait, sem_post,
}
use tp2_so_2025q.Semaphore.Invariant.{slot-set}

-- A write that keeps the name and the use of a slot does not change what is found.
find_from-set :
    (name : List ℕ) (ss : List Semaphore) (i j : ℕ) (s s' : Semaphore)
    → slot ss i ≡ some s
    → s'.name ≡ s.name
    → s'.initialized ≡ s.initialized
    → find_from name (set ss i s') j ≡ find_from name ss j
unfolding find_from
find_from-set name [] i j s s' at e e' = refl
find_from-set name (q ∷ ss) zero j s s' at e e' = ground arith
find_from-set name (q ∷ ss) (suc i) j s s' at e e' =
    ground (arith, find_from-set name ss i (suc j) s s' at e e')

slot-lt : (ss : List Semaphore) (i : ℕ) (s : Semaphore) → slot ss i ≡ some s → i < length ss
slot-lt [] i s e = ground arith
slot-lt (q ∷ ss) zero s e = omega arith
slot-lt (q ∷ ss) (suc i) s e = omega (arith, slot-lt ss i s e)

module _ {H : Type 0} where
  -- The semaphore with the name stands at `i`, its value is `v`, its lock is free and nobody waits.
  pub record Permits (k : Kernel H) (name : List ℕ) (i v : ℕ) : Type 0 where
    pub sem : Semaphore
    pub found : find_sem name k ≡ some i
    pub there : slot k.semaphores i ≡ some sem
    pub value : sem.value ≡ v
    pub unlocked : sem.lock ≡ 1
    pub alone : sem.amount_bprocesses ≡ 0

  -- From `k` to `k'` only the value of the semaphore at `i` has changed, to `v`.
  pub record Moved (k : Kernel H) (name : List ℕ) (i v : ℕ) (k' : Kernel H) : Type 0 where
    pub here : Permits k' name i v
    pub others : {other : List ℕ} {j w : ℕ} → j ≢ i → Permits k other j w → Permits k' other j w
    pub pipes : k'.global_pipe_table ≡ k.global_pipe_table
    pub table : k'.process_table ≡ k.process_table

  abbrev with_value : Kernel H → ℕ → Semaphore → ℕ → Kernel H
  with_value k i s v = put_sem k i (record s { value = v; lock = 1 })

  with_value-Moved :
      (k : Kernel H) (name : List ℕ) (i u v : ℕ) (p : Permits k name i u)
      → Moved k name i v (with_value k i p.sem v)
  unfolding find_sem
  with_value-Moved k name i u v p = record {
    here = record {
      sem = record p.sem { value = v; lock = 1 };
      found = find_from-set name k.semaphores i 0 p.sem _ p.there refl refl ∙ p.found;
      there = ground (
        arith,
        slot-set k.semaphores i i (record p.sem { value = v; lock = 1 }),
        slot-lt k.semaphores i p.sem p.there,
      );
      value = refl;
      unlocked = refl;
      alone = p.alone;
    };
    others = λ {other} {j} {w} ne q. record {
      sem = q.sem;
      found = find_from-set other k.semaphores i 0 p.sem _ p.there refl refl ∙ q.found;
      there =
          ground (arith, slot-set k.semaphores i j (record p.sem { value = v; lock = 1 }), q.there);
      value = q.value;
      unlocked = q.unlocked;
      alone = q.alone;
    };
    pipes = refl;
    table = refl;
  }

  -- With a permit left `sem_wait` takes it.
  pub sem_wait_free :
      (k : Kernel H) (name : List ℕ) (i v : ℕ)
      → Permits k name i (suc v)
      → suc v < 2 ^ 31
      → (k' : Kernel H) × (sem_wait name k ≡ done 0 k') × Moved k name i v k'
  unfolding sem_wait wait_or_pass
  sem_wait_free k name i v p small =
      let open_lock : (p.sem.lock == 0) ≡ false = ground (arith, p.unlocked) in
      let less : sub32 p.sem.value 1 ≡ v = omega (arith, p.value) in
      let pass : is_negative v ≡ false = ground arith in
      (
        with_value k i p.sem v,
        rw (p.found, sem_wait, p.there, open_lock, less, pass) refl,
        with_value-Moved k name i (suc v) v p,
      )

  -- With nobody waiting `sem_post` leaves one permit more.
  pub sem_post_free :
      (k : Kernel H) (name : List ℕ) (i v : ℕ)
      → Permits k name i v
      → suc v < 2 ^ 31
      → (k' : Kernel H) × (sem_post name k ≡ done 0 k') × Moved k name i (suc v) k'
  unfolding sem_post wake_or_pass
  sem_post_free k name i v p small =
      let open_lock : (p.sem.lock == 0) ≡ false = ground (arith, p.unlocked) in
      let more : add32 p.sem.value 1 ≡ suc v = omega (arith, p.value) in
      let pass : (not (lt_int 0 (suc v)) && lt_int 0 p.sem.amount_bprocesses) ≡ false =
        ground (arith, p.alone) in
      (
        with_value k i p.sem (suc v),
        rw (p.found, sem_post, p.there, open_lock, more, pass) refl,
        with_value-Moved k name i v (suc v) p,
      )
