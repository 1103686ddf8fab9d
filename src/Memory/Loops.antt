-- ===== src/Memory/Loops.antt =====
-- The loops over `block_array`: what each leaves in every entry.
use tp2_so_2025q.Base.{
  ℕ, zero, suc, ◌+◌, ◌-◌, ◌≤◌, ◌<◌, ◌≡◌, refl, ◌∙◌, inl, inr, Bool, true, false, ◌&&◌, Option, none,
  some, List, [], ◌∷◌, arith, ltb, leb, ◌==◌, if◌then◌else◌, Bool-cases, Option-cases, leb→le,
  leb→lt, length, set, get_or, length-set, get_or_beyond,
}
use native.Mathlib.Decide.{ℕ_discrete, dec_lt}
use tp2_so_2025q.Memory.Entries.{
  Block, Status, block, is_free, status_at, contiguous_at, vacant, outside,
}
use tp2_so_2025q.Memory.{first_free, first_used, search, mark_used, mark_free}

abbrev pub entry : List Block → ℕ → Block
entry bs k = get_or bs k outside

abbrev pub free_at : List Block → ℕ → Bool
free_at bs k = is_free (status_at bs k)

pub entry-set :
    (bs : List Block) (j k : ℕ) (v : Block)
    → entry (set bs j v) k ≡ (if j == k && ltb k (length bs) then v else entry bs k)
entry-set [] j k v = ground arith
entry-set (b ∷ bs) zero zero v = ground arith
entry-set (b ∷ bs) zero (suc k) v = ground arith
entry-set (b ∷ bs) (suc j) zero v = ground arith
entry-set (b ∷ bs) (suc j) (suc k) v = ground (arith, entry-set bs j k v)

pub length-mark_used : (r : ℕ) (bs : List Block) (j : ℕ) → length (mark_used r bs j) ≡ length bs
unfolding mark_used
length-mark_used zero bs j = refl
length-mark_used (suc r) bs j =
    length-mark_used r (set bs j (block Status.used (contiguous_at bs j))) (suc j)
    ∙ length-set bs j _

pub length-mark_free : (r : ℕ) (bs : List Block) (j : ℕ) → length (mark_free r bs j) ≡ length bs
unfolding mark_free
length-mark_free zero bs j = refl
length-mark_free (suc r) bs j = length-mark_free r (set bs j vacant) (suc j) ∙ length-set bs j _

-- Past the end both sides are the used entry `outside`, so no bound is needed.
pub entry-mark_used :
    (r : ℕ) (bs : List Block) (j k : ℕ)
    → entry (mark_used r bs j) k
      ≡ (if leb j k && ltb k (j + r) then block Status.used (contiguous_at bs k) else entry bs k)
unfolding mark_used
entry-mark_used zero bs j k = ground arith
entry-mark_used (suc r) bs j k =
    let w : Block = block Status.used (contiguous_at bs j) in
    ground (
      arith,
      entry-mark_used r (set bs j w) (suc j) k,
      entry-set bs j k w,
      get_or_beyond bs k outside,
    )

pub entry-mark_free :
    (r : ℕ) (bs : List Block) (j k : ℕ)
    → entry (mark_free r bs j) k
      ≡ (if leb j k && (ltb k (j + r) && ltb k (length bs)) then vacant else entry bs k)
unfolding mark_free
entry-mark_free zero bs j k = ground arith
entry-mark_free (suc r) bs j k = ground (
  arith,
  entry-mark_free r (set bs j vacant) (suc j) k,
  entry-set bs j k vacant,
  length-set bs j vacant,
)

-- `n` free blocks from `k` on.
abbrev pub FreeRun : List Block → ℕ → ℕ → Type 0
FreeRun bs n k = (c : ℕ) → k ≤ c → c < k + n → free_at bs c ≡ true

abbrev FirstUsed : List Block → ℕ → ℕ → Option ℕ → Type 0
FirstUsed bs r j none = FreeRun bs r j
FirstUsed bs r j (some k) = (j ≤ k) × (k < j + r) × (free_at bs k ≡ false)

FirstUsed-cons :
    (bs : List Block) (r j : ℕ) (o : Option ℕ)
    → free_at bs j ≡ true
    → FirstUsed bs r (suc j) o
    → FirstUsed bs (suc r) j o
FirstUsed-cons bs r j none here rest = λ c h h'. elim (ℕ_discrete j c) [
  | yes e ↦ rw (← e) here
  | no ne ↦ rest c (omega arith) (omega arith)
]
FirstUsed-cons bs r j (some k) here rest = (omega arith, omega arith, rest.2)

first_used_lem : (r : ℕ) (bs : List Block) (j : ℕ) → FirstUsed bs r j (first_used r bs j)
unfolding first_used
first_used_lem zero bs j = λ c h h'. absurd (omega arith)
first_used_lem (suc r) bs j = elim (Bool-cases (free_at bs j)) [
  | inl here ↦
      rw here (FirstUsed-cons bs r j (first_used r bs (suc j)) here (first_used_lem r bs (suc j)))
  | inr miss ↦ rw miss (omega arith, omega arith, miss)
]

-- `some k` is the first run of `n` free blocks that starts at `i` or later and at most at `limit`;
-- `none` says that there is none.
abbrev pub FirstFit : List Block → ℕ → ℕ → ℕ → Option ℕ → Type 0
FirstFit bs n limit i none = (k : ℕ) → i ≤ k → k ≤ limit → ¬ FreeRun bs n k
FirstFit bs n limit i (some k) =
    (i ≤ k) × (k ≤ limit) × FreeRun bs n k × ((c : ℕ) → i ≤ c → c < k → ¬ FreeRun bs n c)

-- The search may go on at `i'` if no run starts before it.
FirstFit-skip :
    (bs : List Block) (n limit i i' : ℕ) (o : Option ℕ)
    → i ≤ i'
    → ((c : ℕ) → i ≤ c → c < i' → ¬ FreeRun bs n c)
    → FirstFit bs n limit i' o
    → FirstFit bs n limit i o
FirstFit-skip bs n limit i i' none h gap rest = λ k hi hk run. elim (dec_lt k i') [
  | yes lt ↦ gap k hi lt run
  | no ge ↦ rest k (omega arith) hk run
]
FirstFit-skip bs n limit i i' (some k) h gap rest = (
  omega arith,
  rest.1,
  rest.2,
  λ c hi hc run. elim (dec_lt c i') [
    | yes lt ↦ gap c hi lt run
    | no ge ↦ rest.3 c (omega arith) hc run
  ],
)

-- A used block at `j` rules out every run that holds it.
no_run_over :
    (bs : List Block) (n j c : ℕ) → free_at bs j ≡ false → c ≤ j → j < c + n → ¬ FreeRun bs n c
no_run_over bs n j c used h h' run = ground (arith, run j h h')

FirstUsed-run :
    (bs : List Block) (n i : ℕ)
    → free_at bs i ≡ true
    → FirstUsed bs (n - 1) (suc i) none
    → FreeRun bs n i
FirstUsed-run bs n i hit rest c h h' = elim (ℕ_discrete i c) [
  | yes e ↦ rw (← e) hit
  | no ne ↦ rest c (omega arith) (omega arith)
]

-- With fuel for every index up to `limit` the search finds the first fit.
pub search-FirstFit :
    (f : ℕ) (bs : List Block) (n limit i : ℕ)
    → 0 < n
    → limit < i + f
    → FirstFit bs n limit i (search f bs n limit i)
unfolding search
search-FirstFit zero bs n limit i pos fuel = λ k h h'. absurd (omega arith)
search-FirstFit (suc f) bs n limit i pos fuel = elim (Bool-cases (leb i limit)) [
  | inr out ↦ rw (out, search) (λ k h h'. absurd (omega (arith, leb→lt i limit out)))
  | inl in_range ↦
      rw (in_range, search)
        (elim (Bool-cases (free_at bs i)) [
          | inr miss ↦
              rw (miss, search)
                (FirstFit-skip bs n limit i (suc i) (search f bs n limit (suc i)) (omega arith)
                  (λ c h h'. no_run_over bs n i c miss (omega arith) (omega arith))
                  (search-FirstFit f bs n limit (suc i) pos (omega arith)))
          | inl hit ↦
              rw (hit, search)
                (elim (Option-cases (first_used (n - 1) bs (suc i))) [
                  | inl e ↦
                      let rest : FirstUsed bs (n - 1) (suc i) none =
                        rw e at (first_used_lem (n - 1) bs (suc i)) in
                      rw (e, search)
                        (
                          omega arith,
                          leb→le i limit in_range,
                          FirstUsed-run bs n i hit rest,
                          λ c h h'. absurd (omega arith),
                        )
                  | inr (j, e) ↦
                      let used : FirstUsed bs (n - 1) (suc i) (some j) =
                        rw e at (first_used_lem (n - 1) bs (suc i)) in
                      rw (e, search)
                        (FirstFit-skip bs n limit i (suc j) (search f bs n limit (suc j))
                          (omega arith)
                          (λ c h h'. no_run_over bs n j c used.2 (omega arith) (omega arith))
                          (search-FirstFit f bs n limit (suc j) pos (omega arith)))
                ])
        ])
]

-- What `first_free` finds, as an index from the head of the list on.
abbrev FirstFree : List Block → ℕ → Option ℕ → Type 0
FirstFree bs i none = (c : ℕ) → free_at bs c ≡ false
FirstFree bs i (some k) =
    (d : ℕ) × (k ≡ i + d) × (free_at bs d ≡ true) × ((c : ℕ) → c < d → free_at bs c ≡ false)

FirstFree-cons :
    (b : Block) (bs : List Block) (i : ℕ) (o : Option ℕ)
    → is_free b.status ≡ false
    → FirstFree bs (suc i) o
    → FirstFree (b ∷ bs) i o
FirstFree-cons b bs i none used rest = elim [ zero ↦ used | suc c ↦ rest c ]
FirstFree-cons b bs i (some k) used (d, e, here, below) =
    (suc d, omega arith, here, elim [ zero ↦ λ h. used | suc c ↦ λ h. below c (omega arith) ])

first_free_lem : (bs : List Block) (i : ℕ) → FirstFree bs i (first_free bs i)
unfolding first_free
first_free_lem [] i = λ c. refl
first_free_lem (b ∷ bs) i = elim (Bool-cases (is_free b.status)) [
  | inl here ↦ rw here (0, omega arith, here, λ c h. absurd (omega arith))
  | inr used ↦
      rw used (FirstFree-cons b bs i (first_free bs (suc i)) used (first_free_lem bs (suc i)))
]

-- The first free block of the array.
abbrev pub IsFirstFree : List Block → Option ℕ → Type 0
IsFirstFree bs none = (c : ℕ) → free_at bs c ≡ false
IsFirstFree bs (some k) = (free_at bs k ≡ true) × ((c : ℕ) → c < k → free_at bs c ≡ false)

IsFirstFree-head : (bs : List Block) (o : Option ℕ) → FirstFree bs 0 o → IsFirstFree bs o
IsFirstFree-head bs none h = h
IsFirstFree-head bs (some k) (d, e, here, below) =
    let e' : k ≡ d = omega arith in rw e' (here, below)

pub first_free-IsFirstFree : (bs : List Block) → IsFirstFree bs (first_free bs 0)
first_free-IsFirstFree bs = IsFirstFree-head bs (first_free bs 0) (first_free_lem bs 0)
