-- ===== src/Clock/Ticks.antt =====
-- The counter of timer ticks, 18 to the second, of Kernel/time.c, and `sleep`. `pow` stands in
-- Kernel/libs/lib_math.c.
use tp2_so_2025q.Base.{
  ℕ, zero, suc, ◌+◌, ◌*◌, ◌/◌, ◌%◌, ◌^◌, ◌<◌, ◌≡◌, refl, subst, true, false, Option, none, some,
  List, [], ◌∷◌, arith, ltb, ◌==◌, if◌then◌else◌, add64, sub64, is_negative, sign_extend,
}

unfoldable pub timer_handler : ℕ → ℕ
timer_handler ticks = add64 ticks 1

-- `none` is an overflow of the signed product, which C leaves open.
unfoldable pub nanos_elapsed : ℕ → Option ℕ
nanos_elapsed ticks =
    if ltb (ticks * 1000000000) (2 ^ 63) then some (ticks * 1000000000 / 18) else none

unfoldable pub milis_elapsed : ℕ → Option ℕ
milis_elapsed ticks = if ltb (ticks * 1000) (2 ^ 63) then some (ticks * 1000 / 18) else none

unfoldable pub seconds_elapsed : ℕ → ℕ
seconds_elapsed ticks = ticks / 18

-- `pow` computes in `double`, which is exact here: for a positive base, where the power fits an `int`.
-- A quotient below 1 becomes 0. `none` is a case outside of these.
unfoldable pub pow : ℕ → ℕ → Option ℕ
pow base exponent =
    if is_negative base
    then none
    else if base == 0
    then none
    else if is_negative exponent
    then some (if base == 1 then 1 else 0)
    else if ltb (base ^ exponent) (2 ^ 31)
    then some (base ^ exponent)
    else none

-- The loop: each element is the counter at a test, and `_hlt` lies between two of them. The rest is
-- left when the loop ends; `none` means that it goes on.
unfoldable pub sleep_loop : ℕ → ℕ → ℕ → List ℕ → Option (List ℕ)
sleep_loop t0 factor sec [] = none
sleep_loop t0 factor sec (ticks ∷ looks) =
    let rest = sleep_loop t0 factor sec looks in
    if ltb (sub64 ticks t0 * factor % 2 ^ 64 / 18) (sign_extend sec) then rest else some looks

-- A sleep of no seconds is one `_hlt`, and looks at no counter.
unfoldable pub sleep : ℕ → ℕ → List ℕ → Option (List ℕ)
unfolding pow sleep_loop
sleep sec uni [] = if sec == 0 then some [] else none
sleep sec uni (t0 ∷ looks) =
    if sec == 0
    then some (t0 ∷ looks)
    else elim (pow 1000 uni) [ none ↦ none | some factor ↦ sleep_loop t0 factor sec looks ]

-- The counter at the tests, where each `_hlt` waits for one tick: `n` of them, and the rest.
abbrev pub counting : ℕ → ℕ → List ℕ → List ℕ
counting zero t rest = t ∷ rest
counting (suc n) t rest = t ∷ counting n (suc t) rest

sleep_loop-counting :
    (n d t0 sec : ℕ) (rest : List ℕ)
    → d + n ≡ 18 * sec
    → sec < 2 ^ 31
    → t0 + 18 * sec < 2 ^ 64
    → sleep_loop t0 1 sec (counting n (t0 + d) rest) ≡ some rest
unfolding sleep_loop
sleep_loop-counting zero d t0 sec rest h k l =
    let waited : sub64 (t0 + d) t0 * 1 % 2 ^ 64 ≡ d = omega arith in
    let limit : sign_extend sec ≡ sec = ground arith in
    let over : ltb (d / 18) sec ≡ false = ground arith in rw (waited, limit, over) refl
sleep_loop-counting (suc n) d t0 sec rest h k l =
    let waited : sub64 (t0 + d) t0 * 1 % 2 ^ 64 ≡ d = omega arith in
    let limit : sign_extend sec ≡ sec = ground arith in
    let under : ltb (d / 18) sec ≡ true = ground arith in
    rw (waited, limit, under)
      (subst (λ t. sleep_loop t0 1 sec (counting n t rest) ≡ some rest) (omega arith)
        (sleep_loop-counting n (suc d) t0 sec rest (omega (arith, h)) k l))

-- A sleep of `sec` seconds ends at the tick `18 * sec` behind the one that it started at, not before.
pub sleep_exact :
    (t0 sec : ℕ) (rest : List ℕ)
    → 0 < sec
    → sec < 2 ^ 31
    → t0 + 18 * sec < 2 ^ 64
    → sleep sec 0 (t0 ∷ counting (18 * sec) t0 rest) ≡ some rest
unfolding sleep
sleep_exact t0 sec rest z k l =
    let running : (sec == 0) ≡ false = ground arith in
    rw running (
      subst (λ t. sleep_loop t0 1 sec (counting (18 * sec) t rest) ≡ some rest) (omega arith)
        (sleep_loop-counting (18 * sec) 0 t0 sec rest (omega arith) k l))
