-- ===== src/Pipes/Held.antt =====
-- What it is for a pipe that nobody waits on to hold some bytes.
use tp2_so_2025q.Base.{
  ℕ, zero, suc, ◌-◌, ◌<◌, ◌≡◌, ◌≢◌, refl, sym, subst, true, some, List, [], ◌∷◌, arith, length,
  get_elem?,
}
use tp2_so_2025q.System.{Kernel, Pipe}
use tp2_so_2025q.System.Run.{done, Op}
use tp2_so_2025q.Semaphore.{find_sem}
use tp2_so_2025q.Pipes.{pipe_buffer_size, put_pipe, change_pipe, with_pipe}
use tp2_so_2025q.Pipes.Permits.{Permits, Moved}
use tp2_so_2025q.Pipes.Ring.{RingIsValid, queue}

pub get_elem?-lt {ℓ} :
    {A : Type ℓ} (xs : List A) (i : ℕ) (a : A) → get_elem? xs i ≡ some a → i < length xs
get_elem?-lt [] i a e = ground arith
get_elem?-lt (x ∷ xs) zero a e = omega arith
get_elem?-lt (x ∷ xs) (suc i) a e = omega (arith, get_elem?-lt xs i a e)

-- The names of a pipe's three semaphores are those of another.
pub record SameNames (p q : Pipe) : Type 0 where
  pub lock : q.sem_pipe_lock_name ≡ p.sem_pipe_lock_name
  pub items : q.sem_items_available_name ≡ p.sem_items_available_name
  pub space : q.sem_empty_space_available_name ≡ p.sem_empty_space_available_name

module _ {H : Type 0} where
  -- The semaphores of a pipe, which nobody waits on, stand at `l`, `i` and `s` with the values `x`, `y` and `z`.
  pub record Sems (k : Kernel H) (p : Pipe) (l i s x y z : ℕ) : Type 0 where
    pub lock : Permits k p.sem_pipe_lock_name l x
    pub items : Permits k p.sem_items_available_name i y
    pub space : Permits k p.sem_empty_space_available_name s z
    pub lock_items : l ≢ i
    pub lock_space : l ≢ s
    pub items_space : i ≢ s

  -- The pipe `id` holds the bytes `bs`, nobody waits for it, and its count of items is `items`: that many
  -- bytes, and those that `pipe_close` adds to wake the readers.
  pub record Loaded (id l i s : ℕ) (bs : List ℕ) (items : ℕ) (k : Kernel H) : Type 0 where
    pub pipe : Pipe
    pub at : get_elem? k.global_pipe_table id ≡ some pipe
    pub used : pipe.is_in_use ≡ true
    pub ring : RingIsValid pipe (length bs)
    pub bytes : queue pipe (length bs) ≡ bs
    pub sems : Sems k pipe l i s 1 items (pipe_buffer_size - length bs)

  -- The same, where the count is the number of the bytes.
  abbrev pub Holds : ℕ → ℕ → ℕ → ℕ → List ℕ → Kernel H → Type 0
  Holds id l i s bs k = Loaded id l i s bs (length bs) k

  pub with_pipe_at :
      {A : Type 0} (id : ℕ) (f : Pipe → Op (Kernel H) A) (k : Kernel H) (p : Pipe)
      → get_elem? k.global_pipe_table id ≡ some p
      → with_pipe id f k ≡ f p k
  unfolding with_pipe
  with_pipe_at id f k p e = rw (e, with_pipe) refl

  pub change_pipe_at :
      (id : ℕ) (f : Pipe → Pipe) (k : Kernel H) (p : Pipe)
      → get_elem? k.global_pipe_table id ≡ some p
      → change_pipe id f k ≡ done tt (put_pipe id (f p) k)
  unfolding change_pipe
  change_pipe_at id f k p e = rw (e, change_pipe) refl

  -- The pipes of the kernel do not matter to its semaphores.
  Permits-put_pipe :
      {k : Kernel H} {name : List ℕ} {i v : ℕ} (id : ℕ) (q : Pipe)
      → Permits k name i v
      → Permits (put_pipe id q k) name i v
  unfolding find_sem
  Permits-put_pipe id q p = record {
    sem = p.sem;
    found = p.found;
    there = p.there;
    value = p.value;
    unlocked = p.unlocked;
    alone = p.alone;
  }

  pub Sems-put_pipe :
      {k : Kernel H} {p : Pipe} {l i s x y z : ℕ} (id : ℕ) (q : Pipe)
      → SameNames p q
      → Sems k p l i s x y z
      → Sems (put_pipe id q k) q l i s x y z
  Sems-put_pipe {k} {p} {l} {i} {s} {x} {y} {z} id q same m = record {
    lock =
        subst (λ n. Permits (put_pipe id q k) n l x) (sym same.lock) (Permits-put_pipe id q m.lock);
    items =
        subst (λ n. Permits (put_pipe id q k) n i y) (sym same.items)
          (Permits-put_pipe id q m.items);
    space =
        subst (λ n. Permits (put_pipe id q k) n s z) (sym same.space)
          (Permits-put_pipe id q m.space);
    lock_items = m.lock_items;
    lock_space = m.lock_space;
    items_space = m.items_space;
  }

  -- What a semaphore operation on one of the three leaves.
  pub lock-Moved :
      {k k' : Kernel H} {p : Pipe} {l i s x y z v : ℕ}
      → Sems k p l i s x y z
      → Moved k p.sem_pipe_lock_name l v k'
      → Sems k' p l i s v y z
  lock-Moved m d = record {
    lock = d.here;
    items = d.others (λ e. m.lock_items (sym e)) m.items;
    space = d.others (λ e. m.lock_space (sym e)) m.space;
    lock_items = m.lock_items;
    lock_space = m.lock_space;
    items_space = m.items_space;
  }

  pub items-Moved :
      {k k' : Kernel H} {p : Pipe} {l i s x y z v : ℕ}
      → Sems k p l i s x y z
      → Moved k p.sem_items_available_name i v k'
      → Sems k' p l i s x v z
  items-Moved m d = record {
    lock = d.others m.lock_items m.lock;
    items = d.here;
    space = d.others (λ e. m.items_space (sym e)) m.space;
    lock_items = m.lock_items;
    lock_space = m.lock_space;
    items_space = m.items_space;
  }

  pub space-Moved :
      {k k' : Kernel H} {p : Pipe} {l i s x y z v : ℕ}
      → Sems k p l i s x y z
      → Moved k p.sem_empty_space_available_name s v k'
      → Sems k' p l i s x y v
  space-Moved m d = record {
    lock = d.others m.lock_space m.lock;
    items = d.others m.items_space m.items;
    space = d.here;
    lock_items = m.lock_items;
    lock_space = m.lock_space;
    items_space = m.items_space;
  }
