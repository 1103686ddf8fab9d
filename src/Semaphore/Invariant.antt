-- ===== src/Semaphore/Invariant.antt =====
-- What holds of every semaphore between two kernel routines, and that the operations keep it.
use tp2_so_2025q.Base.{
  ℕ, zero, suc, ◌+◌, ◌-◌, ◌^◌, ◌≤◌, ◌<◌, ◌≡◌, ◌≢◌, refl, ap, ◌∙◌, inl, inr, true, false, not, ◌&&◌,
  Option, none, some, List, [], ◌∷◌, arith, ltb, ◌==◌, if◌then◌else◌, Bool-cases, length, get_or,
  set, length-set, add32, sub32, is_negative, lt_int,
}
use tp2_so_2025q.Text.{strcmp}
use tp2_so_2025q.System.{Semaphore}
use tp2_so_2025q.System.Process.{Pcb}
use tp2_so_2025q.Table.{running_in}
use tp2_so_2025q.Semaphore.{max_name_length, slot, find_from, shift, drop_first, enqueue}

abbrev pub processes_blocked : ℕ
processes_blocked = 10

-- The value is an `int` pattern. In use, the lock is free, and the queue holds as many processes as
-- the value lies below zero.
pub record SemIsValid (s : Semaphore) : Type 0 where
  pub named : length s.name ≡ max_name_length
  pub small : s.value < 2 ^ 32
  pub room : length s.blocked_processes ≡ processes_blocked
  pub bound : s.amount_bprocesses ≤ processes_blocked
  pub pids : (j : ℕ) → get_or s.blocked_processes j 0 < 2 ^ 32
  pub unlocked : s.initialized ≡ true → s.lock ≡ 1
  pub balance :
      s.initialized ≡ true
      → (if is_negative s.value
          then s.amount_bprocesses + s.value
          else s.amount_bprocesses + 2 ^ 32)
        ≡ 2 ^ 32

abbrev pub AreValid : List Semaphore → Type 0
AreValid ss = (i : ℕ) (s : Semaphore) → slot ss i ≡ some s → SemIsValid s

pub slot-set :
    (ss : List Semaphore) (i j : ℕ) (s : Semaphore)
    → slot (set ss i s) j ≡ (if i == j && ltb i (length ss) then some s else slot ss j)
slot-set [] i j s = ground arith
slot-set (q ∷ ss) zero zero s = ground arith
slot-set (q ∷ ss) zero (suc j) s = ground arith
slot-set (q ∷ ss) (suc i) zero s = ground arith
slot-set (q ∷ ss) (suc i) (suc j) s = ground (arith, slot-set ss i j s)

pub AreValid-set :
    (ss : List Semaphore) (i : ℕ) (s : Semaphore)
    → AreValid ss
    → SemIsValid s
    → AreValid (set ss i s)
AreValid-set ss i s all v j q e = elim (Bool-cases (i == j && ltb i (length ss))) [
  | inl here ↦ let same : s ≡ q = ground (arith, slot-set ss i j s) in rw (← same) v
  | inr other ↦ all j q (ground (arith, slot-set ss i j s))
]

-- What `find_sem` finds is in use under the name.
pub find_from-slot :
    (name : List ℕ) (ss : List Semaphore) (i j : ℕ)
    → find_from name ss i ≡ some j
    → (d : ℕ) × (s : Semaphore) × (j ≡ i + d)
      × (slot ss d ≡ some s)
      × (s.initialized ≡ true)
      × (strcmp s.name name ≡ 0)
unfolding find_from
find_from-slot name [] i j e = ground arith
find_from-slot name (s ∷ ss) i j e =
    elim (Bool-cases (s.initialized && (strcmp s.name name == 0))) [
      | inl hit ↦ (0, s, ground arith, refl, ground arith, ground arith)
      | inr miss ↦
          let (d, q, at, there, used, named) = find_from-slot name ss (suc i) j (ground arith) in
          (suc d, q, omega arith, there, used, named)
    ]

-- The semaphore that an operation on the name works on.
pub record Found (ss : List Semaphore) (name : List ℕ) (i : ℕ) (s : Semaphore) : Type 0 where
  pub there : slot ss i ≡ some s
  pub used : s.initialized ≡ true
  pub named : strcmp s.name name ≡ 0

-- The semaphore inside the lock of `sem_wait`, its value taken down by one.
abbrev pub taken : Semaphore → Semaphore
taken s = record s { lock = 0; value = sub32 s.value 1 }

set_pids :
    (bs : List ℕ) (i j pid : ℕ)
    → pid < 2 ^ 32
    → get_or bs j 0 < 2 ^ 32
    → get_or (set bs i pid) j 0 < 2 ^ 32
set_pids [] i j pid fits h = h
set_pids (b ∷ bs) zero zero pid fits h = fits
set_pids (b ∷ bs) zero (suc j) pid fits h = h
set_pids (b ∷ bs) (suc i) zero pid fits h = h
set_pids (b ∷ bs) (suc i) (suc j) pid fits h = set_pids bs i j pid fits h

shift_pids :
    (r : ℕ) (bs : List ℕ)
    → ((j : ℕ) → get_or bs j 0 < 2 ^ 32)
    → (j : ℕ) → get_or (shift r bs) j 0 < 2 ^ 32
unfolding shift
shift_pids zero bs h j = h j
shift_pids (suc r) [] h j = h j
shift_pids (suc r) (b ∷ []) h j = h j
shift_pids (suc r) (b ∷ c ∷ bs) h zero = h 1
shift_pids (suc r) (b ∷ c ∷ bs) h (suc j) = shift_pids r (c ∷ bs) (λ n. h (suc n)) j

pub running_in-lt : (t : List (Option Pcb)) → running_in t < 2 ^ 32
unfolding running_in
running_in-lt [] = omega arith
running_in-lt (none ∷ t) = running_in-lt t
running_in-lt (some p ∷ t) = ground (arith, running_in-lt t)

pub taken-SemIsValid :
    (s : Semaphore)
    → SemIsValid s
    → s.initialized ≡ true
    → is_negative (sub32 s.value 1) ≡ false
    → SemIsValid (record s { value = sub32 s.value 1; lock = 1 })
taken-SemIsValid s v used pass = record {
  named = v.named;
  small = omega arith;
  room = v.room;
  bound = v.bound;
  pids = v.pids;
  unlocked = λ u. refl;
  balance = λ u. ground (arith, v.balance used, v.small, v.bound);
}

pub enqueue-SemIsValid :
    (s : Semaphore) (pid : ℕ)
    → pid < 2 ^ 32
    → SemIsValid s
    → s.initialized ≡ true
    → s.amount_bprocesses < processes_blocked
    → is_negative (sub32 s.value 1) ≡ true
    → SemIsValid (record (enqueue (taken s) pid) { lock = 1 })
unfolding enqueue
enqueue-SemIsValid s pid fits v used room wait = record {
  named = v.named;
  small = omega arith;
  room = length-set s.blocked_processes s.amount_bprocesses pid ∙ v.room;
  bound = omega arith;
  pids = λ j. set_pids s.blocked_processes s.amount_bprocesses j pid fits (v.pids j);
  unlocked = λ u. refl;
  balance = λ u. ground (arith, v.balance used, v.small, v.bound);
}

-- The semaphore inside the lock of `sem_post`, its value put up by one.
abbrev pub given : Semaphore → Semaphore
given s = record s { lock = 0; value = add32 s.value 1 }

length-shift : (r : ℕ) (bs : List ℕ) → length (shift r bs) ≡ length bs
unfolding shift
length-shift zero bs = refl
length-shift (suc r) [] = refl
length-shift (suc r) (b ∷ []) = refl
length-shift (suc r) (b ∷ c ∷ bs) = ap suc (length-shift r (c ∷ bs))

pub drop_first-SemIsValid :
    (s : Semaphore)
    → SemIsValid s
    → s.initialized ≡ true
    → lt_int 0 s.amount_bprocesses ≡ true
    → lt_int 0 (add32 s.value 1) ≡ false
    → SemIsValid (record (drop_first (given s)) { lock = 1 })
unfolding drop_first
drop_first-SemIsValid s v used some_wait low = record {
  named = v.named;
  small = omega arith;
  room = length-shift (s.amount_bprocesses - 1) s.blocked_processes ∙ v.room;
  bound = ground (arith, v.bound);
  pids = shift_pids (s.amount_bprocesses - 1) s.blocked_processes v.pids;
  unlocked = λ u. refl;
  balance = λ u. ground (arith, v.balance used, v.small, v.bound);
}

pub given-SemIsValid :
    (s : Semaphore)
    → SemIsValid s
    → s.initialized ≡ true
    → s.value ≢ 2 ^ 31 - 1
    → (not (lt_int 0 (add32 s.value 1)) && lt_int 0 s.amount_bprocesses) ≡ false
    → SemIsValid (record s { value = add32 s.value 1; lock = 1 })
given-SemIsValid s v used max pass = record {
  named = v.named;
  small = omega arith;
  room = v.room;
  bound = v.bound;
  pids = v.pids;
  unlocked = λ u. refl;
  balance = λ u. ground (arith, v.balance used, v.small, v.bound);
}
