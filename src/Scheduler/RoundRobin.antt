-- ===== src/Scheduler/RoundRobin.antt =====
-- The order in which the scheduler serves the ready processes.
use native.Mathlib.Decide.{dec_lt}
use tp2_so_2025q.Base.{
  ℕ, zero, suc, ◌+◌, ◌-◌, ◌%◌, ◌<◌, ◌≡◌, ◌≢◌, ap, subst, ◌∙◌, ◌⊎◌, inl, inr, true, false, Option,
  none, some, List, arith, Bool-cases, Option-cases, add32,
}
use tp2_so_2025q.System.{Kernel}
use tp2_so_2025q.System.Process.{Pcb, max_pcs}
use tp2_so_2025q.Scheduler.{ready_at, find_ready, choose_next, run_process}

-- The slot `d` places behind the one after `i`, going round.
abbrev pub after : ℕ → ℕ → ℕ
after i d = (add32 i 1 + d) % max_pcs

-- `some j`: the first ready slot of the `r` ones behind `i`. `none`: none of them is ready.
abbrev pub FirstReady : List (Option Pcb) → ℕ → ℕ → Option ℕ → Type 0
FirstReady t i r none = (d : ℕ) → d < r → ready_at t (after i d) ≡ false
FirstReady t i r (some j) =
    (d : ℕ) × (d < r)
    × (j ≡ after i d)
    × (ready_at t j ≡ true)
    × ((e : ℕ) → e < d → ready_at t (after i e) ≡ false)

abbrev next : ℕ → ℕ
next i = add32 i 1 % max_pcs

after_zero : (i : ℕ) → after i 0 ≡ next i
after_zero i = omega arith

after-next : (i d : ℕ) → after (next i) d ≡ after i (suc d)
after-next i d = omega arith

FirstReady-cons :
    (t : List (Option Pcb)) (i r : ℕ) (o : Option ℕ)
    → ready_at t (next i) ≡ false
    → FirstReady t (next i) r o
    → FirstReady t i (suc r) o
FirstReady-cons t i r none miss rest = elim [
  | zero ↦ λ h. rw after_zero miss
  | suc d ↦ λ h. rw (← after-next i d) (rest d (omega arith))
]
FirstReady-cons t i r (some j) miss (d, lt, at, hit, below) = (
  suc d,
  omega arith,
  at ∙ after-next i d,
  hit,
  elim [
    | zero ↦ λ h. rw after_zero miss
    | suc e ↦ λ h. rw (← after-next i e) (below e (omega arith))
  ],
)

pub find_ready-FirstReady :
    (r : ℕ) (t : List (Option Pcb)) (i : ℕ) → FirstReady t i r (find_ready r t i)
unfolding find_ready
find_ready-FirstReady zero t i = λ d h. absurd (omega arith)
find_ready-FirstReady (suc r) t i = elim (Bool-cases (ready_at t (next i))) [
  | inl hit ↦ rw hit (0, omega arith, omega arith, hit, λ e h. absurd (omega arith))
  | inr miss ↦
      rw miss
        (FirstReady-cons t i r (find_ready r t (next i)) miss (find_ready-FirstReady r t (next i)))
]

-- How many slots lie strictly between `c` and `i`, going round.
abbrev pub distance : ℕ → ℕ → ℕ
distance c i = (i + max_pcs - 1 - c) % max_pcs

after-distance : (c i : ℕ) → c < max_pcs → i < max_pcs → after c (distance c i) ≡ i
after-distance c i hc hi = omega arith

after_closer :
    (c i d : ℕ)
    → c < max_pcs
    → i < max_pcs
    → d < distance c i
    → distance (after c d) i < distance c i
after_closer c i d hc hi h = omega arith

FirstReady-closer :
    (t : List (Option Pcb)) (c i j : ℕ)
    → c < max_pcs
    → i < max_pcs
    → ready_at t i ≡ true
    → FirstReady t c max_pcs (some j)
    → (j < max_pcs) × ((j ≡ i) ⊎ (distance j i < distance c i))
FirstReady-closer t c i j hc hi hit (d, lt, at, _, below) = (
  omega arith,
  elim (dec_lt d (distance c i)) [
    | yes nearer ↦ inr (rw at (after_closer c i d hc hi nearer))
    | no reached ↦ elim (dec_lt (distance c i) d) [
      | yes beyond ↦
          let missed : ready_at t i ≡ false =
            subst (λ x. ready_at t x ≡ false) (after-distance c i hc hi)
              (below (distance c i) beyond) in
          absurd (ground arith)
      | no same ↦
          let e : d ≡ distance c i = omega arith in
          inl (at ∙ (ap (after c) e ∙ after-distance c i hc hi))
    ]
  ],
)

module _ {H : Type 0} where
  current-run_process :
      (i r : ℕ) (k k' : Kernel H) → run_process i k ≡ some (r, k') → k'.current_index ≡ i
  unfolding run_process
  current-run_process i r k k' e = ground arith

  -- One turn while slot `i` is ready: the scheduler picks `i`, or a slot nearer to it.
  pub choose_next_closer :
      (k k' : Kernel H) (i r : ℕ)
      → k.current_index < max_pcs
      → i < max_pcs
      → ready_at k.process_table i ≡ true
      → choose_next k ≡ some (r, k')
      → (k'.current_index < max_pcs)
        × ((k'.current_index ≡ i) ⊎ (distance k'.current_index i < distance k.current_index i))
  unfolding choose_next
  choose_next_closer k k' i r hc hi hit e =
      elim (Option-cases (find_ready max_pcs k.process_table k.current_index)) [
        | inl none_ready ↦
            let all_missed : FirstReady k.process_table k.current_index max_pcs none =
              rw none_ready at (find_ready-FirstReady max_pcs k.process_table k.current_index) in
            let missed : ready_at k.process_table i ≡ false =
              subst (λ x. ready_at k.process_table x ≡ false)
                (after-distance k.current_index i hc hi)
                (all_missed (distance k.current_index i) (omega arith)) in
            absurd (ground arith)
        | inr (j, found) ↦
            let first : FirstReady k.process_table k.current_index max_pcs (some j) =
              rw found at (find_ready-FirstReady max_pcs k.process_table k.current_index) in
            let picked : k'.current_index ≡ j =
              current-run_process j r k k' (rw (found, choose_next) at e) in
            rw picked (FirstReady-closer k.process_table k.current_index i j hc hi hit first)
      ]

  -- `Waits i n k`: slot `i` has been ready at `n` turns of the scheduler and was not picked at any,
  -- and `k` is the state after them. Between two turns anything may happen to the kernel, except that
  -- only the scheduler moves `current_index`.
  pub data Waits (i : ℕ) : ℕ → Kernel H → Type 0 where
    start : {k : Kernel H} → k.current_index < max_pcs → Waits i 0 k
    turn :
        {n r : ℕ} {k k' : Kernel H} (j : Kernel H)
        → Waits i n k
        → j.current_index ≡ k.current_index
        → ready_at j.process_table i ≡ true
        → choose_next j ≡ some (r, k')
        → k'.current_index ≢ i
        → Waits i (suc n) k'

  Waits-distance :
      (i n : ℕ) (k : Kernel H)
      → i < max_pcs
      → Waits i n k
      → (k.current_index < max_pcs) × (n + distance k.current_index i < max_pcs)
  Waits-distance i n k hi (start h) = (h, omega arith)
  Waits-distance i n k' hi (turn {n = m} {r} {k} j w same hit e miss) =
      let before = Waits-distance i m k hi w in
      let closer = choose_next_closer j k' i r (omega (arith, before.0)) hi hit e in
      elim closer.1 [
        | inl picked ↦ absurd (miss picked)
        | inr nearer ↦ (closer.0, omega (arith, before.1, ap (λ c. distance c i) same))
      ]

  -- No ready process starves: while it stays ready, it is passed over at most 63 times.
  pub Waits_bound : (i n : ℕ) (k : Kernel H) → i < max_pcs → Waits i n k → n < max_pcs
  Waits_bound i n k hi w = omega (arith, Waits-distance i n k hi w)
