-- ===== src/System/Run.antt =====
-- What a kernel routine does on a state. Interrupts are off inside the kernel, so another process runs
-- only where the routine gives the CPU away: `switch s k` is the state `s` at that point, and `k` the
-- rest of the routine, which goes on from the state that it finds when its process is scheduled again.
pub data Run (S A : Type 0) : Type 0 where
  done : A → S → Run S A
  -- a read or write through a null pointer or outside an array
  fault : Run S A
  -- the busy loop of `_wait` on a lock that nobody can release
  spin : Run S A
  switch : S → (S → Run S A) → Run S A

abbrev pub Op : Type 0 → Type 0 → Type 0
Op S A = S → Run S A

module _ {S : Type 0} where
  unfoldable pub and_then : {A B : Type 0} → Run S A → (A → Op S B) → Run S B
  and_then (done a s) f = f a s
  and_then fault f = fault
  and_then spin f = spin
  and_then (switch s k) f = switch s (λ s'. and_then (k s') f)

  infixl 5 ◌>>=◌ ◌>>◌
  abbrev pub ◌>>=◌ : {A B : Type 0} → Op S A → (A → Op S B) → Op S B
  ◌>>=◌ m f s = and_then (m s) f

  abbrev pub ◌>>◌ : {B : Type 0} → Op S (Unit {0}) → Op S B → Op S B
  ◌>>◌ m k s = and_then (m s) (λ _. k)

  abbrev pub pure : {A : Type 0} → A → Op S A
  pure a s = done a s

  -- Whatever the others leave behind at a switch, if it satisfies `P` the routine goes on without a
  -- fault and without spinning; it leaves `P` at each switch, and ends in `Q`.
  pub data Keeps {A : Type 0} (P : S → Type 0) (Q : A → S → Type 0) : Run S A → Type 0 where
    ends : {a : A} {s : S} → Q a s → Keeps P Q (done a s)
    yields :
        {s : S} {k : S → Run S A}
        → P s
        → ((s' : S) → P s' → Keeps P Q (k s'))
        → Keeps P Q (switch s k)

  pub Keeps-bind :
      {A B : Type 0} {P : S → Type 0} {Q : A → S → Type 0} {R : B → S → Type 0} {r : Run S A}
      {f : A → Op S B}
      → Keeps P Q r
      → ((a : A) (s : S) → Q a s → Keeps P R (f a s))
      → Keeps P R (and_then r f)
  unfolding and_then
  Keeps-bind (ends q) next = next _ _ q
  Keeps-bind (yields p rest) next = yields p (λ s' p'. Keeps-bind (rest s' p') next)

  pub Keeps-mono :
      {A : Type 0} {P : S → Type 0} {Q R : A → S → Type 0} {r : Run S A}
      → Keeps P Q r
      → ((a : A) (s : S) → Q a s → R a s)
      → Keeps P R r
  Keeps-mono (ends q) weaken = ends (weaken _ _ q)
  Keeps-mono (yields p rest) weaken = yields p (λ s' p'. Keeps-mono (rest s' p') weaken)
