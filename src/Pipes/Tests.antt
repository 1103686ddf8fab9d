-- ===== src/Pipes/Tests.antt =====
-- A pipe in slot 3 whose ring starts near the end of its buffer.
use tp2_so_2025q.Base.{
  ℕ, zero, suc, ◌+◌, ◌-◌, ◌%◌, ◌≡◌, refl, ap, sym, subst, Bool, true, false, some, List, [], ◌∷◌,
  ◌++◌, arith, length, replicate,
}
use tp2_so_2025q.Text.{codes, strcmp}
use tp2_so_2025q.System.{Kernel, Semaphore, Pipe}
use tp2_so_2025q.System.Run.{done, and_then}
use tp2_so_2025q.System.Sample.{kernel, lock}
use tp2_so_2025q.Semaphore.{find_sem, sem_wait, sem_post}
use tp2_so_2025q.Pipes.{pipe_write_end}
use tp2_so_2025q.Pipes.Ring.{contents, RingIsValid, queue}
use tp2_so_2025q.Pipes.Held.{Sems, Loaded, Holds}
use tp2_so_2025q.Pipes.Transfer.{pipe_close, pipe_read, pipe_write}
use tp2_so_2025q.Pipes.RoundTrip.{pipe_write_lem, pipe_read_lem, pipe_read-pipe_write}
use tp2_so_2025q.Pipes.Full.{full_reads_as_empty}

abbrev sem : List ℕ → ℕ → Semaphore
sem name value = record lock { name = name; value = value }

-- With `n` bytes in the ring.
abbrev pipe : ℕ → Bool → Pipe
pipe n eof_signaled = record {
  is_named = true;
  name = codes "a";
  ref_count = 2;
  write_open_count = 1;
  read_open_count = 1;
  eof_signaled = eof_signaled;
  buffer = replicate 1024 7;
  read_index = 1022;
  write_index = (1022 + n) % 1024;
  sem_pipe_lock_name = codes "p_lock_a";
  sem_items_available_name = codes "p_items_a";
  sem_empty_space_available_name = codes "p_space_a";
  is_in_use = true;
}

abbrev piped : ℕ → Bool → Kernel (Unit {0})
piped n eof_signaled = record (kernel lock) {
  semaphores =
      sem (codes "p_lock_a") 1
      ∷ sem (codes "p_items_a") n
      ∷ sem (codes "p_space_a") (1024 - n)
      ∷ [];
  global_pipe_table = replicate 3 (pipe 0 false) ++ pipe n eof_signaled ∷ [];
}

piped-Sems : (n : ℕ) (eof : Bool) → Sems (piped n eof) (pipe n eof) 0 1 2 1 n (1024 - n)
unfolding find_sem strcmp
piped-Sems n eof = record {
  lock = record {
    sem = sem (codes "p_lock_a") 1;
    found = refl;
    there = refl;
    value = refl;
    unlocked = refl;
    alone = refl;
  };
  items = record {
    sem = sem (codes "p_items_a") n;
    found = refl;
    there = refl;
    value = refl;
    unlocked = refl;
    alone = refl;
  };
  space = record {
    sem = sem (codes "p_space_a") (1024 - n);
    found = refl;
    there = refl;
    value = refl;
    unlocked = refl;
    alone = refl;
  };
  lock_items = λ e. omega arith;
  lock_space = λ e. omega arith;
  items_space = λ e. omega arith;
}

empty-Holds : Holds 3 0 1 2 [] (piped 0 false)
unfolding contents
empty-Holds = record {
  pipe = pipe 0 false;
  at = refl;
  used = refl;
  ring = record { size = refl; read = omega arith; room = omega arith; write = refl };
  bytes = refl;
  sems = piped-Sems 0 false;
}

two-Holds : Holds 3 0 1 2 (7 ∷ 7 ∷ []) (piped 2 false)
unfolding contents
two-Holds = record {
  pipe = pipe 2 false;
  at = refl;
  used = refl;
  ring = record { size = refl; read = omega arith; room = omega arith; write = refl };
  bytes = refl;
  sems = piped-Sems 2 false;
}

pipe_write_lem_example :
    (k : Kernel (Unit {0})) × (pipe_write 3 (some (1 ∷ 2 ∷ 3 ∷ [])) 2 (piped 2 false) ≡ done 2 k)
    × Holds 3 0 1 2 (7 ∷ 7 ∷ 1 ∷ 2 ∷ []) k
pipe_write_lem_example =
    pipe_write_lem 3 0 1 2 2 2 (1 ∷ 2 ∷ 3 ∷ []) (7 ∷ 7 ∷ []) (piped 2 false) two-Holds (omega arith)
      (omega arith) (omega arith) (omega arith) (omega arith)

pipe_read_lem_example :
    (k : Kernel (Unit {0})) × (pipe_read 3 true 1 (piped 2 false) ≡ done (1, 7 ∷ []) k)
    × Holds 3 0 1 2 (7 ∷ []) k
pipe_read_lem_example =
    pipe_read_lem (7 ∷ []) 3 0 1 2 1 (7 ∷ []) (piped 2 false) two-Holds (omega arith) (omega arith)
      (omega arith) (omega arith)

pipe_read-pipe_write_example :
    (k : Kernel (Unit {0})) × (and_then
        (pipe_write 3 (some (1 ∷ 2 ∷ 3 ∷ [])) 3 (piped 0 false))
        (λ n. pipe_read 3 true n)
      ≡ done (3, 1 ∷ 2 ∷ 3 ∷ []) k)
    × Holds 3 0 1 2 [] k
pipe_read-pipe_write_example =
    pipe_read-pipe_write 3 0 1 2 (1 ∷ 2 ∷ 3 ∷ []) (piped 0 false) empty-Holds (omega arith)
      (omega arith) (omega arith)

length-contents : (buffer : List ℕ) (r n : ℕ) → length (contents buffer r n) ≡ n
unfolding contents
length-contents buffer r zero = refl
length-contents buffer r (suc n) = ap suc (length-contents buffer ((r + 1) % 1024) n)

abbrev full_bytes : List ℕ
full_bytes = queue (pipe 1024 true) 1024

-- The pipe and its kernel when the last writer has closed its end.
abbrev closed_pipe : Pipe
closed_pipe = record (pipe 1024 true) { ref_count = 1; write_open_count = 0 }

abbrev closed : Kernel (Unit {0})
closed = record (piped 1024 true) {
  semaphores =
      sem (codes "p_lock_a") 1 ∷ sem (codes "p_items_a") 1034 ∷ sem (codes "p_space_a") 0 ∷ [];
  global_pipe_table = replicate 3 (pipe 0 false) ++ closed_pipe ∷ [];
}

last_writer_gone : pipe_close 3 pipe_write_end (piped 1024 false) ≡ done 0 closed
unfolding pipe_close and_then sem_post sem_wait find_sem strcmp
last_writer_gone = refl

closed-Sems : Sems closed closed_pipe 0 1 2 1 1034 0
unfolding find_sem strcmp
closed-Sems = record {
  lock = record {
    sem = sem (codes "p_lock_a") 1;
    found = refl;
    there = refl;
    value = refl;
    unlocked = refl;
    alone = refl;
  };
  items = record {
    sem = sem (codes "p_items_a") 1034;
    found = refl;
    there = refl;
    value = refl;
    unlocked = refl;
    alone = refl;
  };
  space = record {
    sem = sem (codes "p_space_a") 0;
    found = refl;
    there = refl;
    value = refl;
    unlocked = refl;
    alone = refl;
  };
  lock_items = omega arith;
  lock_space = omega arith;
  items_space = omega arith;
}

full_Loaded : Loaded 3 0 1 2 full_bytes 1034 closed
full_Loaded =
    let size : 1024 ≡ length full_bytes = sym (length-contents (replicate 1024 7) 1022 1024) in
    record {
      pipe = closed_pipe;
      at = refl;
      used = refl;
      ring =
          subst (RingIsValid closed_pipe) size
            (record { size = refl; read = omega arith; room = omega arith; write = refl });
      bytes = ap (queue closed_pipe) (sym size);
      sems = subst (λ n. Sems closed closed_pipe 0 1 2 1 1034 (1024 - n)) size closed-Sems;
    }

full_reads_as_empty_example :
    (k : Kernel (Unit {0})) × (pipe_read 3 true 10 closed ≡ done (0, []) k)
unfolding full_Loaded
full_reads_as_empty_example =
    full_reads_as_empty 3 0 1 2 1033 10 full_bytes closed full_Loaded refl
      (length-contents (replicate 1024 7) 1022 1024) (omega arith) (omega arith) (omega arith)
      (omega arith)
