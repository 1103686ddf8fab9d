-- ===== src/Semaphore.antt =====
-- Kernel/sem.c: named counting semaphores with a queue of blocked processes.
pub mod Invariant
pub mod Keeps
pub mod Open
pub mod Queue
pub mod Post
mod Tests
use tp2_so_2025q.Base.{
  ℕ, zero, suc, ◌-◌, true, false, not, ◌&&◌, Option, none, some, List, [], ◌∷◌, ltb, ◌==◌,
  if◌then◌else◌, length, get_or, set, replicate, add32, sub32, neg, is_negative, lt_int,
  sign_extend,
}
use tp2_so_2025q.Text.{strcmp, strncpy}
use tp2_so_2025q.System.{Kernel, Semaphore}
use tp2_so_2025q.System.Run.{done, fault, spin, Op, and_then}
use tp2_so_2025q.Table.{get_pid}
use tp2_so_2025q.Blocking.{block_process, unblock_process}

abbrev pub max_name_length : ℕ
max_name_length = 32

-- The index of the first semaphore in use with the name; `i` is the index of the list's head.
unfoldable pub find_from : List ℕ → List Semaphore → ℕ → Option ℕ
find_from name [] i = none
find_from name (s ∷ ss) i =
    if s.initialized && (strcmp s.name name == 0) then some i else find_from name ss (suc i)

unfoldable pub find_free : List Semaphore → ℕ → Option ℕ
find_free [] i = none
find_free (s ∷ ss) i = if s.initialized then find_free ss (suc i) else some i

unfoldable pub clear_all : List Semaphore → List Semaphore
clear_all [] = []
clear_all (s ∷ ss) = record s { initialized = false } ∷ clear_all ss

-- The slot `i` of the array; `none` past its end.
abbrev pub slot : List Semaphore → ℕ → Option Semaphore
slot [] i = none
slot (s ∷ ss) zero = some s
slot (s ∷ ss) (suc i) = slot ss i

-- The slot that `sem_open_init` has taken, filled in; `name` is the copied name.
unfoldable pub fresh_sem : Semaphore → List ℕ → ℕ → Semaphore
fresh_sem s name value = record s {
  initialized = true;
  name = set name (max_name_length - 1) 0;
  value = value;
  amount_bprocesses = 0;
  lock = 1;
  amount_sem_openings = 1;
}

-- `for (i = 1; i < amount; i++) b[i - 1] = b[i]`, with the rounds left.
unfoldable pub shift : ℕ → List ℕ → List ℕ
shift zero bs = bs
shift (suc r) [] = []
shift (suc r) (b ∷ []) = b ∷ []
shift (suc r) (b ∷ c ∷ bs) = c ∷ shift r (c ∷ bs)

-- The semaphore without the head of its queue.
unfoldable pub drop_first : Semaphore → Semaphore
unfolding shift
drop_first s = record s {
  blocked_processes = shift (s.amount_bprocesses - 1) s.blocked_processes;
  amount_bprocesses = sub32 s.amount_bprocesses 1;
}

-- The semaphore with `pid` at the end of its queue.
unfoldable pub enqueue : Semaphore → ℕ → Semaphore
enqueue s pid = record s {
  blocked_processes = set s.blocked_processes s.amount_bprocesses pid;
  amount_bprocesses = add32 s.amount_bprocesses 1;
}

-- One opening less; with none left the slot is unused, its name and value wiped.
unfoldable pub closed : Semaphore → Semaphore
closed s =
    let less = record s { amount_sem_openings = sub32 s.amount_sem_openings 1 } in
    if lt_int 0 less.amount_sem_openings
    then less
    else (record less { initialized = false; name = replicate max_name_length 0; value = 0 })

module _ {H : Type 0} where
  unfoldable pub find_sem : List ℕ → Kernel H → Option ℕ
  unfolding find_from
  find_sem name k = find_from name k.semaphores 0

  abbrev pub put_sem : Kernel H → ℕ → Semaphore → Kernel H
  put_sem k i s = record k { semaphores = set k.semaphores i s }

  -- The first call in the life of the kernel marks every slot unused.
  unfoldable pub init_sems : Kernel H → Kernel H
  unfolding clear_all
  init_sems k =
      if k.sem_init then k else (record k { semaphores = clear_all k.semaphores; sem_init = true })

  unfoldable pub open_new : List ℕ → ℕ → Op (Kernel H) ℕ
  unfolding find_free fresh_sem
  open_new name value k = elim (find_free k.semaphores 0) [
    | none ↦ done (neg 2) k
    | some i ↦ elim (slot k.semaphores i) [
      | none ↦ fault
      | some s ↦ elim (strncpy s.name name (max_name_length - 1)) [
        | none ↦ fault
        | some copy ↦ done 0 (put_sem k i (fresh_sem s copy value))
      ]
    ]
  ]

  unfoldable pub open_or_join : List ℕ → ℕ → Op (Kernel H) ℕ
  unfolding find_sem open_new
  open_or_join name value k = elim (find_sem name k) [
    | none ↦ open_new name value k
    | some i ↦ elim (slot k.semaphores i) [
      | none ↦ fault
      | some s ↦
          done (neg 1)
            (put_sem k i (record s { amount_sem_openings = add32 s.amount_sem_openings 1 }))
    ]
  ]

  unfoldable pub sem_open_init : List ℕ → ℕ → Op (Kernel H) ℕ
  unfolding init_sems open_or_join
  sem_open_init name value k = open_or_join name value (init_sems k)

  -- After `value--`, which left `s`, inside the lock: the lock is released before a block.
  unfoldable pub wait_or_pass : ℕ → Semaphore → Op (Kernel H) ℕ
  unfolding enqueue
  wait_or_pass i s k =
      let pid = get_pid k in
      if not (is_negative s.value)
      then done 0 (put_sem k i (record s { lock = 1 }))
      else if not (ltb s.amount_bprocesses (length s.blocked_processes))
      then fault
      else and_then (block_process pid (put_sem k i (record (enqueue s pid) { lock = 1 })))
          (λ _ k'. done 0 k')

  unfoldable pub sem_wait : List ℕ → Op (Kernel H) ℕ
  unfolding find_sem wait_or_pass
  sem_wait name k = elim (find_sem name k) [
    | none ↦ done (neg 1) k
    | some i ↦ elim (slot k.semaphores i) [
      | none ↦ fault
      | some s ↦
          if s.lock == 0
          then spin
          else wait_or_pass i (record s { lock = 0; value = sub32 s.value 1 }) k
    ]
  ]

  -- After `value++`, which left `s`, inside the lock.
  unfoldable pub wake_or_pass : ℕ → Semaphore → Op (Kernel H) ℕ
  unfolding drop_first
  wake_or_pass i s k =
      if not (lt_int 0 s.value) && lt_int 0 s.amount_bprocesses
      then and_then
          (unblock_process (sign_extend (get_or s.blocked_processes 0 0))
            (put_sem k i (drop_first s)))
          (λ _ k'. done 0 (put_sem k' i (record (drop_first s) { lock = 1 })))
      else done 0 (put_sem k i (record s { lock = 1 }))

  unfoldable pub sem_post : List ℕ → Op (Kernel H) ℕ
  unfolding find_sem wake_or_pass
  sem_post name k = elim (find_sem name k) [
    | none ↦ done (neg 1) k
    | some i ↦ elim (slot k.semaphores i) [
      | none ↦ fault
      | some s ↦
          if s.lock == 0
          then spin
          else wake_or_pass i (record s { lock = 0; value = add32 s.value 1 }) k
    ]
  ]

  unfoldable pub sem_close : List ℕ → Op (Kernel H) ℕ
  unfolding find_sem closed
  sem_close name k = elim (find_sem name k) [
    | none ↦ done (neg 1) k
    | some i ↦ elim (slot k.semaphores i) [
      | none ↦ fault
      | some s ↦ done 0 (put_sem k i (closed s))
    ]
  ]

  -- The loop of `close_all_sems` with the rounds left, at slot `i`.
  unfoldable pub close_from : ℕ → ℕ → Op (Kernel H) (Unit {0})
  unfolding sem_close
  close_from zero i k = done tt k
  close_from (suc r) i k = elim (slot k.semaphores i) [
    | none ↦ fault
    | some s ↦ elim s.initialized [
      | true ↦ and_then (sem_close s.name k) (λ _ k'. close_from r (suc i) k')
      | false ↦ close_from r (suc i) k
    ]
  ]

  unfoldable pub close_all_sems : Op (Kernel H) (Unit {0})
  unfolding close_from
  close_all_sems k = close_from (length k.semaphores) 0 k
