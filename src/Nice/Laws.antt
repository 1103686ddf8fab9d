-- ===== src/Nice/Laws.antt =====
-- `be_nice` on every branch, and the time that a priority gives.
use native.Mathlib.Decide.{dec_lt}
use tp2_so_2025q.Base.{
  ℕ, zero, suc, ◌-◌, ◌*◌, ◌^◌, ◌≤◌, ◌<◌, ◌≡◌, ◌≢◌, refl, ◌⊎◌, inl, inr, true, some, arith, ◌==◌,
  Bool-cases, Option-cases, neg, is_negative,
}
use tp2_so_2025q.Text.{strcmp}
use tp2_so_2025q.System.{Kernel, pcb_at, put_pcb}
use tp2_so_2025q.System.Run.{done}
use tp2_so_2025q.System.Process.{Pcb, State, is_zombie, max_pcs, quantum}
use tp2_so_2025q.Table.{is_pid_valid}
use tp2_so_2025q.Scheduler.{idle_name}
use tp2_so_2025q.Nice.{be_nice, int_to_priority, get_max_time_for_priority, set_priority}

-- The five levels that a caller may ask for, the time of each five times that of the next.
pub max_time_level :
    (n : ℕ) → n ≤ 4 → get_max_time_for_priority (int_to_priority n) ≡ quantum * 5 ^ (4 - n)
unfolding get_max_time_for_priority int_to_priority
max_time_level zero h = refl
max_time_level (suc zero) h = refl
max_time_level (suc (suc zero)) h = refl
max_time_level (suc (suc (suc zero))) h = refl
max_time_level (suc (suc (suc (suc zero)))) h = refl
max_time_level (suc (suc (suc (suc (suc n))))) h = absurd (omega arith)

-- The calls that `be_nice` grants: a process that is there, not a zombie and not the idle process, and
-- a level from 0 to 4.
pub record Granted {H : Type 0} (k : Kernel H) (pid prio : ℕ) (p : Pcb) : Type 0 where
  pub there : pcb_at k pid ≡ some p
  pub in_table : pid < max_pcs
  pub level : prio ≤ 4
  pub living : p.state ≢ State.zombie
  pub not_idle : strcmp p.name idle_name ≢ 0

module _ {H : Type 0} where
  -- The outcome for a process that is there, at a level in range.
  be_nice_at :
      (k : Kernel H) (pid prio : ℕ) (p : Pcb)
      → pcb_at k pid ≡ some p
      → pid < max_pcs
      → prio ≤ 4
      → ((p : Pcb) × Granted k pid prio p
          × (be_nice pid prio k
              ≡ done 0 (
                  put_pcb k pid (
                    some (record p {
                      my_prio = int_to_priority prio;
                      my_max_time = quantum * 5 ^ (4 - prio);
                    })))))
        ⊎ ((r : ℕ) × (be_nice pid prio k ≡ done r k)
            × (is_negative r ≡ true)
            × ((p : Pcb) → ¬ Granted k pid prio p))
  unfolding be_nice is_pid_valid set_priority
  be_nice_at k pid prio p at near low = elim (Bool-cases (is_zombie p.state)) [
    | inl dead ↦ inr (neg 1, ground arith, refl, λ q g. ground (arith, g.there, g.living))
    | inr living ↦ elim (Bool-cases (strcmp p.name idle_name == 0)) [
      | inl idle ↦ inr (neg 2, ground arith, refl, λ q g. ground (arith, g.there, g.not_idle))
      | inr other ↦ inl (
        p,
        record {
          there = at;
          in_table = near;
          level = low;
          living = λ e. ground arith;
          not_idle = λ e. ground arith;
        },
        ground (arith, max_time_level prio low),
      )
    ]
  ]

  -- `be_nice` grants exactly those calls: then it answers 0, sets the level and the time of the
  -- process to `quantum * 5 ^ (4 - level)`, and changes nothing else. Every other call gets a negative
  -- answer and changes nothing.
  pub be_nice-Granted :
      (k : Kernel H) (pid prio : ℕ)
      → pid < 2 ^ 32
      → prio < 2 ^ 32
      → ((p : Pcb) × Granted k pid prio p
          × (be_nice pid prio k
              ≡ done 0 (
                  put_pcb k pid (
                    some (record p {
                      my_prio = int_to_priority prio;
                      my_max_time = quantum * 5 ^ (4 - prio);
                    })))))
        ⊎ ((r : ℕ) × (be_nice pid prio k ≡ done r k)
            × (is_negative r ≡ true)
            × ((p : Pcb) → ¬ Granted k pid prio p))
  unfolding be_nice is_pid_valid set_priority
  be_nice-Granted k pid prio hp hn = elim (Option-cases (pcb_at k pid)) [
    | inl gone ↦ inr (neg 1, ground arith, refl, λ p g. ground (arith, g.there))
    | inr (p, at) ↦ elim (dec_lt pid max_pcs) [
      | no far ↦ inr (neg 1, ground arith, refl, λ q g. absurd (far g.in_table))
      | yes near ↦ elim (dec_lt 4 prio) [
        | yes high ↦ inr (neg 3, ground arith, refl, λ q g. ground (arith, g.level))
        | no low ↦ be_nice_at k pid prio p at near (omega arith)
      ]
    ]
  ]
