-- ===== src/Semaphore/Post.antt =====
-- `sem_post` is the post of the counter.
use tp2_so_2025q.Base.{
  ℕ, zero, suc, ◌+◌, ◌-◌, ◌^◌, ◌≤◌, ◌<◌, ◌≡◌, ◌≢◌, refl, ap, ◌∙◌, inl, inr, Bool, true, false, not,
  ◌&&◌, Option, none, some, List, [], ◌∷◌, arith, ◌==◌, if◌then◌else◌, Bool-cases, length, get_or,
  take, add32, sub32, is_negative, lt_int, sign_extend,
}
use tp2_so_2025q.System.{Kernel, Semaphore}
use tp2_so_2025q.System.Run.{Run, done, and_then}
use tp2_so_2025q.Blocking.{unblock_process}
use tp2_so_2025q.Semaphore.{slot, find_sem, put_sem, shift, drop_first, wake_or_pass, sem_post}
use tp2_so_2025q.Semaphore.Invariant.{
  SemIsValid, AreValid, given, given-SemIsValid, drop_first-SemIsValid,
}
use tp2_so_2025q.Semaphore.Queue.{
  Counter, counter, release, view, view_cases, hand_over, take-shift,
}

-- The head of the queue and the rest, where somebody waits.
waiting_cons :
    (s : Semaphore)
    → SemIsValid s
    → 0 < s.amount_bprocesses
    → take s.amount_bprocesses s.blocked_processes
      ≡ get_or s.blocked_processes 0 0
        ∷ take (s.amount_bprocesses - 1) (shift (s.amount_bprocesses - 1) s.blocked_processes)
waiting_cons s v pos =
    head_rest s.amount_bprocesses s.blocked_processes pos (omega (arith, v.room, v.bound))
  where
    head_rest :
        (a : ℕ) (bs : List ℕ)
        → 0 < a
        → a ≤ length bs
        → take a bs ≡ get_or bs 0 0 ∷ take (a - 1) (shift (a - 1) bs)
    head_rest zero bs pos fits = absurd (omega arith)
    head_rest (suc r) [] pos fits = absurd (omega arith)
    head_rest (suc r) (b ∷ bs) pos fits =
        let less : suc r - 1 ≡ r = omega arith in rw (less, take-shift r b bs (omega arith))

release_queued :
    (n : ℕ) (pid : ℕ) (q : List ℕ) → release (counter n (pid ∷ q)) ≡ (counter n q, some pid)
unfolding release hand_over
release_queued n pid q = refl

release_empty : (n : ℕ) → release (counter n []) ≡ (counter (n + 1) [], none)
unfolding release hand_over
release_empty n = refl

abbrev wakes : Semaphore → Bool
wakes s = not (lt_int 0 (add32 s.value 1)) && lt_int 0 s.amount_bprocesses

release_wake :
    (s : Semaphore)
    → SemIsValid s
    → s.initialized ≡ true
    → wakes s ≡ true
    → let q =
        take (s.amount_bprocesses - 1) (shift (s.amount_bprocesses - 1) s.blocked_processes) in
      (release (view s) ≡ (counter 0 q, some (get_or s.blocked_processes 0 0)))
      × (view (record (drop_first (given s)) { lock = 1 }) ≡ counter 0 q)
unfolding view drop_first
release_wake s v used wake = elim (view_cases s v used) [
  | inl (count, empty, e) ↦ absurd (ground arith)
  | inr (queued, balance, e) ↦ (
    ap release e ∙ (rw (waiting_cons s v (ground arith)) (release_queued 0 _ _)),
    rw down (ap (λ n. counter n q) (zero_left balance)),
  )
]
  where
    q : List ℕ
    q = take (s.amount_bprocesses - 1) (shift (s.amount_bprocesses - 1) s.blocked_processes)

    down : sub32 s.amount_bprocesses 1 ≡ s.amount_bprocesses - 1
    down = ground (arith, v.bound)

    zero_left :
        s.amount_bprocesses + s.value ≡ 2 ^ 32
        → (if is_negative (add32 s.value 1) then 0 else add32 s.value 1) ≡ 0
    zero_left balance = ground (arith, v.bound, v.small)

release_pass :
    (s : Semaphore)
    → SemIsValid s
    → s.initialized ≡ true
    → s.value ≢ 2 ^ 31 - 1
    → wakes s ≡ false
    → (release (view s) ≡ (counter (s.value + 1) [], none))
      × (view (record s { value = add32 s.value 1; lock = 1 }) ≡ counter (s.value + 1) [])
unfolding view
release_pass s v used max pass = elim (view_cases s v used) [
  | inl (count, empty, e) ↦ (ap release e ∙ release_empty s.value, ground (arith, v.small))
  | inr (queued, balance, e) ↦ absurd (ground (arith, v.bound))
]

module _ {H : Type 0} where
  -- What `sem_post` must do for a counter's answer. The wake-up happens inside the lock.
  abbrev pub PostsAs : Kernel H → ℕ → Semaphore → Option ℕ → Run (Kernel H) ℕ → Type 0
  PostsAs k i s none r = r ≡ done 0 (put_sem k i s)
  PostsAs k i s (some pid) r =
      r
      ≡ and_then (unblock_process (sign_extend pid) (put_sem k i (record s { lock = 0 })))
          (λ _ k'. done 0 (put_sem k' i s))

  abbrev pub PostRefines : Kernel H → ℕ → Counter × Option ℕ → Run (Kernel H) ℕ → Type 0
  PostRefines k i (c, woken) r =
      (s : Semaphore) × SemIsValid s × (view s ≡ c) × PostsAs k i s woken r

  wake_or_pass_refines :
      (k : Kernel H) (i : ℕ) (s : Semaphore)
      → SemIsValid s
      → s.initialized ≡ true
      → s.value ≢ 2 ^ 31 - 1
      → PostRefines k i (release (view s)) (wake_or_pass i (given s) k)
  unfolding wake_or_pass
  wake_or_pass_refines k i s v used max = elim (Bool-cases (wakes s)) [
    | inr pass ↦
        let (e, same) = release_pass s v used max pass in
        rw (e, pass)
          (
            record s { value = add32 s.value 1; lock = 1 },
            given-SemIsValid s v used max pass,
            same,
            refl,
          )
    | inl wake ↦
        let (e, same) = release_wake s v used wake in
        rw (e, wake)
          (
            record (drop_first (given s)) { lock = 1 },
            drop_first-SemIsValid s v used (ground arith) (ground arith),
            same,
            refl,
          )
  ]

  -- `sem_post` is the post of the counter, where the count is not at the largest `int`: with nobody waiting it leaves one permit more, else the
  -- process that has waited longest leaves the queue and is unblocked. It returns 0 either way.
  pub sem_post_refines :
      (name : List ℕ) (k : Kernel H) (i : ℕ) (s : Semaphore)
      → AreValid k.semaphores
      → find_sem name k ≡ some i
      → slot k.semaphores i ≡ some s
      → s.initialized ≡ true
      → s.value ≢ 2 ^ 31 - 1
      → PostRefines k i (release (view s)) (sem_post name k)
  unfolding sem_post
  sem_post_refines name k i s all e there used max =
      let v = all i s there in
      let open_lock : (s.lock == 0) ≡ false = ground (arith, v.unlocked used) in
      rw (e, sem_post, there, open_lock) (wake_or_pass_refines k i s v used max)
