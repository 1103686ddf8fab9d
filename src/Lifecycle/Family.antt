-- ===== src/Lifecycle/Family.antt =====
-- The list of children of a process: `disown` undoes `adopt`.
use tp2_so_2025q.Base.{
  ℕ, zero, suc, ◌^◌, ◌<◌, ◌≡◌, ◌≢◌, refl, inl, inr, true, false, some, List, [], ◌∷◌, arith, ◌==◌,
  Bool-cases, Option-cases, get_elem?, get_or, add32, sub32, neg, sign_extend,
}
use tp2_so_2025q.System.Process.{Pcb}
use tp2_so_2025q.Lifecycle.Create.{add_child, adopt}
use tp2_so_2025q.Lifecycle.Kill.{drop_child, disown}

-- Where there is a free place, `add_child` finds one.
add_child-some :
    (pid : ℕ) (cs : List ℕ) (j : ℕ)
    → get_elem? cs j ≡ some (neg 1)
    → (cs' : List ℕ) × (add_child pid cs ≡ some cs')
unfolding add_child
add_child-some pid [] j e = ground arith
add_child-some pid (c ∷ cs) zero e = (pid ∷ cs, ground arith)
add_child-some pid (c ∷ cs) (suc j) e =
    let (cs', found) = add_child-some pid cs j e in
    elim (Bool-cases (c == neg 1)) [
      | inl here ↦ (pid ∷ cs, ground arith)
      | inr later ↦ (c ∷ cs', rw (later, add_child, found) refl)
    ]

drop_child-add_child :
    (pid : ℕ) (cs cs' : List ℕ)
    → pid < 2 ^ 31
    → ((j : ℕ) → get_or cs j (neg 1) ≢ pid)
    → add_child pid cs ≡ some cs'
    → drop_child pid cs' ≡ (cs, true)
unfolding add_child drop_child
drop_child-add_child pid [] cs' small absent e = ground arith
drop_child-add_child pid (c ∷ cs) cs' small absent e = elim (Bool-cases (c == neg 1)) [
  | inl here ↦
      let put : cs' ≡ pid ∷ cs = ground arith in
      let same : (sign_extend pid == pid) ≡ true = ground arith in
      let free : c ≡ neg 1 = ground arith in rw (put, drop_child, same, free) refl
  | inr later ↦ elim (Option-cases (add_child pid cs)) [
    | inl full ↦ ground arith
    | inr (rest, found) ↦
        let put : cs' ≡ c ∷ rest = ground arith in
        let other : (sign_extend c == pid) ≡ false = ground (arith, absent 0) in
        rw
          (
            put,
            drop_child,
            drop_child-add_child pid cs rest small (λ j. absent (suc j)) found,
            other,
          )
          refl
  ]
]

-- A child that was not in the list, taken in where there is a free place and then dropped, leaves the
-- block as it was.
pub disown-adopt :
    (pid j : ℕ) (p : Pcb)
    → pid < 2 ^ 31
    → p.child_amount < 2 ^ 32
    → ((j : ℕ) → get_or p.childs j (neg 1) ≢ pid)
    → get_elem? p.childs j ≡ some (neg 1)
    → disown pid (adopt pid p) ≡ p
unfolding disown adopt
disown-adopt pid j p small counted absent free =
    let (cs, found) = add_child-some pid p.childs j free in
    let back : sub32 (add32 p.child_amount 1) 1 ≡ p.child_amount = omega arith in
    let adopted : adopt pid p ≡ record p { childs = cs; child_amount = add32 p.child_amount 1 } =
      rw (found, adopt) refl in
    rw (adopted, disown, drop_child-add_child pid p.childs cs small absent found, back) refl
