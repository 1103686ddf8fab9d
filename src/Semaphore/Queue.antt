-- ===== src/Semaphore/Queue.antt =====
-- A semaphore as permits and a first-in first-out queue, and that sem.c implements it.
use tp2_so_2025q.Base.{
  ℕ, zero, suc, ◌+◌, ◌-◌, ◌^◌, ◌≤◌, ◌<◌, ◌≡◌, refl, ap, ◌∙◌, ◌⊎◌, inl, inr, Bool, true, false,
  Option, none, some, List, [], ◌∷◌, ◌++◌, arith, ltb, ◌==◌, if◌then◌else◌, Bool-cases, length,
  take, set, add32, sub32, is_negative,
}
use tp2_so_2025q.System.{Kernel, Semaphore}
use tp2_so_2025q.System.Run.{Run, done, and_then}
use tp2_so_2025q.Table.{get_pid}
use tp2_so_2025q.Blocking.{block_process}
use tp2_so_2025q.Semaphore.{slot, find_sem, put_sem, shift, enqueue, wait_or_pass, sem_wait}
use tp2_so_2025q.Semaphore.Invariant.{
  SemIsValid, AreValid, processes_blocked, taken, taken-SemIsValid, enqueue-SemIsValid,
}
use tp2_so_2025q.Semaphore.Keeps.{get_pid-lt}

-- What a semaphore promises: a number of permits, and the processes that wait for one, oldest first.
pub record Counter : Type 0 where
  pub permits : ℕ
  pub queue : List ℕ

abbrev pub counter : ℕ → List ℕ → Counter
counter n q = record { permits = n; queue = q }

unfoldable pub take_permit : ℕ → List ℕ → ℕ → Counter × Bool
take_permit zero q pid = (counter 0 (q ++ pid ∷ []), true)
take_permit (suc n) q pid = (counter n q, false)

-- A wait takes a permit, or queues its process; the flag says that it blocks.
unfoldable pub acquire : Counter → ℕ → Counter × Bool
unfolding take_permit
acquire c pid = take_permit c.permits c.queue pid

unfoldable pub hand_over : ℕ → List ℕ → Counter × Option ℕ
hand_over n [] = (counter (n + 1) [], none)
hand_over n (pid ∷ rest) = (counter n rest, some pid)

-- A post hands its permit to the process that has waited longest, or leaves it.
unfoldable pub release : Counter → Counter × Option ℕ
unfolding hand_over
release c = hand_over c.permits c.queue

-- The state of a semaphore as a counter.
unfoldable pub view : Semaphore → Counter
view s =
    counter (if is_negative s.value then 0 else s.value)
      (take s.amount_bprocesses s.blocked_processes)

take-set_end :
    (bs : List ℕ) (a pid : ℕ) → a < length bs → take (suc a) (set bs a pid) ≡ take a bs ++ pid ∷ []
take-set_end [] a pid h = absurd (omega arith)
take-set_end (b ∷ bs) zero pid h = refl
take-set_end (b ∷ bs) (suc a) pid h = ap (◌∷◌ b) (take-set_end bs a pid (omega arith))

-- Moving the `r` entries behind the head up leaves the queue without its head.
pub take-shift : (r b : ℕ) (bs : List ℕ) → r ≤ length bs → take r (shift r (b ∷ bs)) ≡ take r bs
unfolding shift
take-shift zero b bs h = refl
take-shift (suc r) b [] h = absurd (omega arith)
take-shift (suc r) b (c ∷ bs) h = ap (◌∷◌ c) (take-shift r c bs (omega arith))

-- Either nobody waits and the value counts permits, or it counts the processes that wait.
pub view_cases :
    (s : Semaphore)
    → SemIsValid s
    → s.initialized ≡ true
    → ((is_negative s.value ≡ false) × (s.amount_bprocesses ≡ 0) × (view s ≡ counter s.value []))
      ⊎ ((is_negative s.value ≡ true)
          × (s.amount_bprocesses + s.value ≡ 2 ^ 32)
          × (view s ≡ counter 0 (take s.amount_bprocesses s.blocked_processes)))
unfolding view
view_cases s v used = elim (Bool-cases (is_negative s.value)) [
  | inr count ↦
      let empty : s.amount_bprocesses ≡ 0 = ground (arith, v.balance used) in
      inl (count, empty, rw (count, empty))
  | inl queued ↦ inr (queued, ground (arith, v.balance used), rw queued)
]

acquire_some :
    (n pid : ℕ) (q : List ℕ) → 0 < n → acquire (counter n q) pid ≡ (counter (n - 1) q, false)
unfolding acquire take_permit
acquire_some zero pid q h = absurd (omega arith)
acquire_some (suc n) pid q h = ap (λ m. (counter m q, false)) (omega arith)

acquire_none :
    (pid : ℕ) (q : List ℕ) → acquire (counter 0 q) pid ≡ (counter 0 (q ++ pid ∷ []), true)
unfolding acquire take_permit
acquire_none pid q = refl

-- The value after the decrement says which of the two a wait is.
acquire_permit :
    (s : Semaphore) (pid : ℕ)
    → SemIsValid s
    → s.initialized ≡ true
    → is_negative (sub32 s.value 1) ≡ false
    → (acquire (view s) pid ≡ (counter (s.value - 1) [], false))
      × (view (record s { value = sub32 s.value 1; lock = 1 }) ≡ counter (s.value - 1) [])
unfolding view
acquire_permit s pid v used pass = elim (view_cases s v used) [
  | inl (count, empty, e) ↦ (
    ap (λ c. acquire c pid) e ∙ acquire_some s.value pid [] (ground arith),
    ground (arith, v.small),
  )
  | inr (queued, balance, _) ↦ absurd (ground (arith, v.bound))
]

acquire_block :
    (s : Semaphore) (pid : ℕ)
    → SemIsValid s
    → s.initialized ≡ true
    → s.amount_bprocesses < processes_blocked
    → is_negative (sub32 s.value 1) ≡ true
    → let q = take s.amount_bprocesses s.blocked_processes ++ pid ∷ [] in
      (acquire (view s) pid ≡ (counter 0 q, true))
      × (view (record (enqueue (taken s) pid) { lock = 1 }) ≡ counter 0 q)
unfolding view enqueue
acquire_block s pid v used room wait = (before, after)
  where
    before :
        acquire (view s) pid
        ≡ (counter 0 (take s.amount_bprocesses s.blocked_processes ++ pid ∷ []), true)
    before = elim (view_cases s v used) [
      | inl (count, empty, e) ↦
          let none_left : s.value ≡ 0 = ground (arith, v.small) in
          ap (λ c. acquire c pid) e ∙ (rw (none_left, empty) (acquire_none pid []))
      | inr (queued, balance, e) ↦
          ap (λ c. acquire c pid) e
          ∙ acquire_none pid (take s.amount_bprocesses s.blocked_processes)
    ]

    after :
        view (record (enqueue (taken s) pid) { lock = 1 })
        ≡ counter 0 (take s.amount_bprocesses s.blocked_processes ++ pid ∷ [])
    after =
        let next : add32 s.amount_bprocesses 1 ≡ suc s.amount_bprocesses = omega arith in
        rw (wait, next)
          (ap (counter 0)
            (take-set_end s.blocked_processes s.amount_bprocesses pid (omega (arith, v.room))))

module _ {H : Type 0} where
  -- What `sem_wait` must do for a counter's answer, `s` being the semaphore that it leaves.
  abbrev pub WaitsAs : Kernel H → ℕ → Semaphore → Bool → Run (Kernel H) ℕ → Type 0
  WaitsAs k i s true r =
      r ≡ and_then (block_process (get_pid k) (put_sem k i s)) (λ _ k'. done 0 k')
  WaitsAs k i s false r = r ≡ done 0 (put_sem k i s)

  abbrev pub WaitRefines : Kernel H → ℕ → Counter × Bool → Run (Kernel H) ℕ → Type 0
  WaitRefines k i (c, blocks) r =
      (s : Semaphore) × SemIsValid s × (view s ≡ c) × WaitsAs k i s blocks r

  wait_or_pass_refines :
      (k : Kernel H) (i : ℕ) (s : Semaphore)
      → SemIsValid s
      → s.initialized ≡ true
      → s.amount_bprocesses < processes_blocked
      → WaitRefines k i (acquire (view s) (get_pid k)) (wait_or_pass i (taken s) k)
  unfolding wait_or_pass
  wait_or_pass_refines k i s v used room = elim (Bool-cases (is_negative (sub32 s.value 1))) [
    | inr pass ↦
        let (e, same) = acquire_permit s (get_pid k) v used pass in
        rw (e, pass)
          (
            record s { value = sub32 s.value 1; lock = 1 },
            taken-SemIsValid s v used pass,
            same,
            refl,
          )
    | inl wait ↦
        let (e, same) = acquire_block s (get_pid k) v used room wait in
        let fits : ltb s.amount_bprocesses (length s.blocked_processes) ≡ true =
          ground (arith, v.room) in
        rw (e, wait, fits)
          (
            record (enqueue (taken s) (get_pid k)) { lock = 1 },
            enqueue-SemIsValid s (get_pid k) (get_pid-lt k) v used room wait,
            same,
            refl,
          )
  ]

  -- `sem_wait` on a semaphore with room in its queue is the wait of its counter: with a permit left it
  -- takes one and returns 0 without giving up the CPU, else the caller goes to the end of the queue
  -- and is blocked.
  pub sem_wait_refines :
      (name : List ℕ) (k : Kernel H) (i : ℕ) (s : Semaphore)
      → AreValid k.semaphores
      → find_sem name k ≡ some i
      → slot k.semaphores i ≡ some s
      → s.initialized ≡ true
      → s.amount_bprocesses < processes_blocked
      → WaitRefines k i (acquire (view s) (get_pid k)) (sem_wait name k)
  unfolding sem_wait
  sem_wait_refines name k i s all e there used room =
      let v = all i s there in
      let open_lock : (s.lock == 0) ≡ false = ground (arith, v.unlocked used) in
      rw (e, sem_wait, there, open_lock) (wait_or_pass_refines k i s v used room)
