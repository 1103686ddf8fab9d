-- ===== src/Buddy/Power.antt =====
-- The loop of `first_power`: where it ends, and where it does not.
use native.Mathlib.Nat.{pow-suc}
use tp2_so_2025q.Base.{
  ℕ, zero, suc, ◌+◌, ◌*◌, ◌%◌, ◌^◌, ◌≤◌, ◌<◌, ◌≡◌, refl, ap, ◌∙◌, ◌⊎◌, true, false, none, some, inl,
  inr, Bool-cases, arith, ltb, ltb→lt, ltb→le,
}
use tp2_so_2025q.Buddy.{leaf_size, blk_size, power_loop, first_power}

-- A size doubled so many times.
abbrev doubled : ℕ → ℕ → ℕ
doubled zero size = size
doubled (suc r) size = doubled r (size * 2)

le-doubled : (r size : ℕ) → size ≤ doubled r size
le-doubled zero size = omega arith
le-doubled (suc r) size = omega (arith, le-doubled r (size * 2))

doubled-blk_size : (r size : ℕ) → doubled r size ≡ 2 ^ r * size
doubled-blk_size zero size = omega arith
doubled-blk_size (suc r) size = doubled-blk_size r (size * 2) ∙ rw (pow-suc 2 r) (grind arith)

-- The answer `k + r` is the first one whose size reaches `n`.
abbrev IsFirst : ℕ → ℕ → ℕ → Type 0
IsFirst n size zero = n ≤ size
IsFirst n size (suc r) = (n ≤ doubled (suc r) size) × (doubled r size < n)

IsFirst-suc : (n size r : ℕ) → size < n → IsFirst n (size * 2) r → IsFirst n size (suc r)
IsFirst-suc n size zero h f = (f, h)
IsFirst-suc n size (suc r) h f = f

power_loop-step :
    (fuel k size n : ℕ)
    → ltb size n ≡ true
    → power_loop (suc fuel) k size n ≡ power_loop fuel ((k + 1) % 2 ^ 16) (size * 2 % 2 ^ 64) n
unfolding power_loop
power_loop-step fuel k size n more = rw more refl

power_loop_lem :
    (fuel k size n : ℕ)
    → n ≤ 2 ^ 63
    → k + fuel < 2 ^ 16
    → n ≤ doubled fuel size
    → (r : ℕ) × (power_loop (suc fuel) k size n ≡ some (k + r)) × IsFirst n size r
unfolding power_loop
power_loop_lem zero k size n small high enough =
    let stop : ltb size n ≡ false = ground arith in (0, rw stop (ap some (omega arith)), enough)
power_loop_lem (suc fuel) k size n small high enough = elim (Bool-cases (ltb size n)) [
  | inl more ↦
      let below = ltb→lt size n more in
      let (r, e, first) = power_loop_lem fuel (k + 1) (size * 2) n small (omega arith) enough in
      let next : (k + 1) % 2 ^ 16 ≡ k + 1 = omega arith in
      let twice : size * 2 % 2 ^ 64 ≡ size * 2 = omega arith in
      (
        suc r,
        power_loop-step (suc fuel) k size n more
            ∙ (λ i. power_loop (suc fuel) (next i) (twice i) n)
            ∙ e
            ∙ ap some (omega arith),
        IsFirst-suc n size r below first,
      )
  | inr stop ↦ (0, rw stop (ap some (omega arith)), ltb→le size n stop)
]

doubled_mono : (j r size : ℕ) → j ≤ r → doubled j size ≤ doubled r size
doubled_mono zero r size h = le-doubled r size
doubled_mono (suc j) zero size h = absurd (omega arith)
doubled_mono (suc j) (suc r) size h = doubled_mono j r (size * 2) (omega arith)

-- Before the first size that reaches `n` there is none.
IsFirst-least :
    (n size r : ℕ)
    → IsFirst n size r
    → (n ≤ doubled r size) × ((j : ℕ) → (doubled j size < n) ⊎ (r ≤ j))
IsFirst-least n size zero first = (first, λ j. inr (omega arith))
IsFirst-least n size (suc r) first = (
  first.0,
  λ j. elim (Bool-cases (ltb j (suc r))) [
    | inl h ↦
        inl (omega (arith, first.1, doubled_mono j r size (omega (arith, ltb→lt j (suc r) h))))
    | inr h ↦ inr (ltb→le j (suc r) h)
  ],
)

first_power-power_loop : (fuel n : ℕ) → first_power fuel n leaf_size ≡ power_loop fuel 0 leaf_size n
unfolding first_power
first_power-power_loop fuel n = refl

-- For a request of at most 2 ^ 63 bytes `first_power` comes to its end: the answer is the first size
-- class whose blocks are large enough.
pub first_power_total :
    (n : ℕ)
    → n ≤ 2 ^ 63
    → (k : ℕ) × (first_power 64 n leaf_size ≡ some k)
      × (n ≤ blk_size k)
      × ((j : ℕ) → (blk_size j < n) ⊎ (k ≤ j))
first_power_total n h =
    let (k, e, first) = power_loop_lem 63 0 leaf_size n h (omega arith) (omega arith) in
    let (reaches, least) = IsFirst-least n leaf_size k first in
    (
      k,
      first_power-power_loop 64 n ∙ e ∙ ap some (omega arith),
      rw (← doubled-blk_size k leaf_size) reaches,
      λ j. rw (← doubled-blk_size j leaf_size) (least j),
    )

loop_at_zero : (fuel k n : ℕ) → 0 < n → power_loop fuel k 0 n ≡ none
loop_at_zero zero k n h = unfold power_loop in refl
loop_at_zero (suc fuel) k n h =
    power_loop-step fuel k 0 n (ground arith) ∙ loop_at_zero fuel ((k + 1) % 2 ^ 16) n h

loop_below :
    (r fuel k size n : ℕ) → doubled r size ≡ 2 ^ 63 → 2 ^ 63 < n → power_loop fuel k size n ≡ none
loop_below r zero k size n e h = unfold power_loop in refl
loop_below zero (suc fuel) k size n e h =
    let wraps : size * 2 % 2 ^ 64 ≡ 0 = omega arith in
    power_loop-step fuel k size n (ground arith)
    ∙ ap (λ s. power_loop fuel ((k + 1) % 2 ^ 16) s n) wraps
    ∙ loop_at_zero fuel ((k + 1) % 2 ^ 16) n (omega arith)
loop_below (suc r) (suc fuel) k size n e h =
    let bound = le-doubled r (size * 2) in
    let twice : size * 2 % 2 ^ 64 ≡ size * 2 = omega arith in
    power_loop-step fuel k size n (ground (arith, bound))
    ∙ ap (λ s. power_loop fuel ((k + 1) % 2 ^ 16) s n) twice
    ∙ loop_below r fuel ((k + 1) % 2 ^ 16) (size * 2) n e h

-- For a larger one it goes on for ever: the doubled size becomes 0.
first_power_hangs : (fuel n : ℕ) → 2 ^ 63 < n → first_power fuel n leaf_size ≡ none
first_power_hangs fuel n h = first_power-power_loop fuel n ∙ loop_below 59 fuel 0 leaf_size n refl h
