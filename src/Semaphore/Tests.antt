-- ===== src/Semaphore/Tests.antt =====
-- `sem_wait` and `sem_post` on the sample kernel.
use tp2_so_2025q.Base.{false, ℕ, zero, suc, ◌<◌, ◌≡◌, ◌≢◌, refl, true, some, [], ◌∷◌, arith, neg}
use tp2_so_2025q.Text.{codes, strcmp}
use tp2_so_2025q.System.{Semaphore}
use tp2_so_2025q.System.Run.{done, Keeps}
use tp2_so_2025q.System.Sample.{kernel, lock, contended, lock-Good, contended-Good}
use tp2_so_2025q.Table.{get_pid}
use tp2_so_2025q.Scheduler.Good.{Good, KeepsUnless}
use tp2_so_2025q.Semaphore.Open.{sem_open_init-Keeps, sem_close-Keeps}
use tp2_so_2025q.Semaphore.{sem_open_init, sem_close, find_sem, slot, put_sem, sem_wait, sem_post}
use tp2_so_2025q.Semaphore.Invariant.{SemIsValid, AreValid, processes_blocked}
use tp2_so_2025q.Semaphore.Keeps.{WaitIsStray, sem_wait-Outcome, sem_post-Keeps}
use tp2_so_2025q.Semaphore.Queue.{counter, acquire, release, view, WaitRefines, sem_wait_refines}
use tp2_so_2025q.Semaphore.Post.{PostRefines, sem_post_refines}

missing : sem_wait (codes "other") (kernel lock) ≡ done (neg 1) (kernel lock)
unfolding sem_wait strcmp
missing = refl

release_lock :
    sem_post (codes "lock") (kernel lock)
    ≡ done 0 (put_sem (kernel lock) 0 (record lock { value = 1 }))
unfolding sem_post strcmp
release_lock = refl

only_one :
    (s : Semaphore) (P : Semaphore → Type 0)
    → P s
    → (i : ℕ) (q : Semaphore) → slot (s ∷ []) i ≡ some q
    → P q
only_one s P h zero q e = let same : s ≡ q = ground arith in rw (← same) h
only_one s P h (suc i) q e = ground arith

sem_wait-Outcome_example :
    KeepsUnless
      (WaitIsStray (codes "lock") (kernel lock))
      AreValid
      (sem_wait (codes "lock") (kernel lock))
sem_wait-Outcome_example =
    sem_wait-Outcome (codes "lock") (kernel lock) lock-Good
      (λ i s _ e. only_one lock (λ q. q.amount_bprocesses < processes_blocked) (omega arith) i s e)

sem_post-Keeps_example :
    Keeps (Good AreValid) (λ _. Good AreValid) (sem_post (codes "lock") (kernel contended))
sem_post-Keeps_example =
    sem_post-Keeps (codes "lock") (kernel contended) contended-Good
      (λ i s _ e. only_one contended (λ q. q.value ≢ 0x7fff_ffff) (λ e. omega arith) i s e)

sem_wait_refines_example :
    WaitRefines
      (kernel contended)
      0
      (counter 0 (3 ∷ 1 ∷ []), true)
      (sem_wait (codes "lock") (kernel contended))
unfolding find_sem acquire view get_pid strcmp
sem_wait_refines_example =
    sem_wait_refines (codes "lock") (kernel contended) 0 contended contended-Good.sems refl refl
      refl (omega arith)

sem_post_refines_example :
    PostRefines
      (kernel contended)
      0
      (counter 0 [], some 3)
      (sem_post (codes "lock") (kernel contended))
unfolding find_sem release view strcmp
sem_post_refines_example =
    sem_post_refines (codes "lock") (kernel contended) 0 contended contended-Good.sems refl refl
      refl (λ e. omega arith)

-- The lock before anybody opened it.
abbrev spare : Semaphore
spare = record lock { initialized = false }

spare-IsValid : SemIsValid spare
spare-IsValid =
    let v = lock-Good.sems 0 lock refl in
    record {
      named = v.named;
      small = v.small;
      room = v.room;
      bound = v.bound;
      pids = v.pids;
      unlocked = λ u. ground arith;
      balance = λ u. ground arith;
    }

spare-Good : Good AreValid (kernel spare)
spare-Good = record {
  table = lock-Good.table;
  alive = lock-Good.alive;
  sems = only_one spare SemIsValid spare-IsValid;
}

sem_open_init-Keeps_example :
    Keeps (Good AreValid) (λ _. Good AreValid) (sem_open_init (codes "new") 5 (kernel spare))
sem_open_init-Keeps_example =
    sem_open_init-Keeps (codes "new") 5 (kernel spare) spare-Good (omega arith)

sem_close-Keeps_example :
    Keeps (Good AreValid) (λ _. Good AreValid) (sem_close (codes "lock") (kernel contended))
sem_close-Keeps_example = sem_close-Keeps (codes "lock") (kernel contended) contended-Good
