-- ===== src/Pipes/Create.antt =====
-- `pipe_init`, `pipe_create_anonymous` and `pipe_create_named` of Kernel/pipes.c.
use tp2_so_2025q.Base.{
  ℕ, Bool, true, false, Option, none, some, List, if◌then◌else◌, get_elem?, add32, neg, is_negative,
}
use tp2_so_2025q.System.{Kernel, Pipe}
use tp2_so_2025q.System.Run.{done, fault, Op, ◌>>=◌, ◌>>◌, pure}
use tp2_so_2025q.Semaphore.{sem_open_init, sem_close}
use tp2_so_2025q.Pipes.{
  pipe_buffer_size, table_lock, free_pipe, named_pipe, fresh_pipe, anon_name, mark_pipes, put_pipe,
  change_pipe, with_pipe, locked,
}

module _ {H : Type 0} where
  -- The first three slots stand for the standard streams.
  unfoldable pub mark_table : Op (Kernel H) (Unit {0})
  unfolding mark_pipes
  mark_table k = done tt (record k { global_pipe_table = mark_pipes 3 k.global_pipe_table })

  unfoldable pub pipe_init : Op (Kernel H) (Unit {0})
  unfolding mark_table
  pipe_init = do _ ← sem_open_init table_lock 1; mark_table

  unfoldable pub name_pipe : ℕ → List ℕ → Bool → Op (Kernel H) (Unit {0})
  unfolding fresh_pipe
  name_pipe id name is_named k = elim (get_elem? k.global_pipe_table id) [
    | none ↦ fault
    | some p ↦ elim (fresh_pipe name is_named p) [
      | none ↦ fault
      | some q ↦ done tt (put_pipe id q k)
    ]
  ]

  -- The third semaphore of a new pipe, and the way out where it cannot be had.
  unfoldable pub open_space : ℕ → Pipe → Op (Kernel H) ℕ
  open_space id p = do
    r ← sem_open_init p.sem_empty_space_available_name pipe_buffer_size
    if is_negative r
        then (do
          _ ← sem_close p.sem_pipe_lock_name
          _ ← sem_close p.sem_items_available_name
          pure (neg 1))
        else pure id

  unfoldable pub open_items : ℕ → Pipe → Op (Kernel H) ℕ
  unfolding open_space
  open_items id p = do
    r ← sem_open_init p.sem_items_available_name 0
    if is_negative r then (do _ ← sem_close p.sem_pipe_lock_name; pure (neg 1)) else open_space id p

  unfoldable pub open_sems : ℕ → Pipe → Op (Kernel H) ℕ
  unfolding open_items
  open_sems id p = do
    r ← sem_open_init p.sem_pipe_lock_name 1
    if is_negative r then pure (neg 1) else open_items id p

  unfoldable pub create_pipe_object : ℕ → List ℕ → Bool → Op (Kernel H) ℕ
  unfolding name_pipe open_sems with_pipe
  create_pipe_object id name is_named = do name_pipe id name is_named; with_pipe id (open_sems id)

  -- A slot that is taken: the pipe is made in it and `setup` follows, or the slot is given back.
  unfoldable pub fill_slot : ℕ → List ℕ → Bool → (Pipe → Pipe) → Op (Kernel H) ℕ
  unfolding change_pipe create_pipe_object
  fill_slot slot name is_named setup = do
    change_pipe slot (λ p. record p { is_in_use = true })
    id ← create_pipe_object slot name is_named
    if is_negative id
        then (do change_pipe slot (λ p. record p { is_in_use = false }); pure (neg 1))
        else (do change_pipe id setup; pure id)

  unfoldable pub anonymous_in : Option ℕ → Op (Kernel H) ℕ
  unfolding fill_slot
  anonymous_in none k = done (neg 1) k
  anonymous_in (some slot) k = elim (anon_name slot) [
    | none ↦ fault
    | some name ↦
        fill_slot slot name false
          (λ p. record p {
            ref_count = 2;
            write_open_count = 1;
            read_open_count = 1;
            eof_signaled = false;
          })
          k
  ]

  unfoldable pub create_anonymous : Op (Kernel H) ℕ
  unfolding anonymous_in free_pipe
  create_anonymous k = anonymous_in (free_pipe k.global_pipe_table 0) k

  -- The answer and what is written to `pipe_ids`: the same number twice, or nothing.
  unfoldable pub pipe_create_anonymous : Op (Kernel H) (ℕ × Option (ℕ × ℕ))
  unfolding locked create_anonymous
  pipe_create_anonymous = do
    id ← locked create_anonymous
    pure (if is_negative id then (neg 1, none) else (0, some (id, id)))

  unfoldable pub named_in : List ℕ → Option ℕ → Op (Kernel H) ℕ
  unfolding fill_slot
  named_in name none k = done (neg 1) k
  named_in name (some slot) k = fill_slot slot name true (λ p. record p { ref_count = 1 }) k

  unfoldable pub create_named : List ℕ → Op (Kernel H) ℕ
  unfolding named_in named_pipe free_pipe change_pipe
  create_named name k = elim (named_pipe name k.global_pipe_table 0) [
    | some i ↦ (do change_pipe i (λ p. record p { ref_count = add32 p.ref_count 1 }); pure i) k
    | none ↦ named_in name (free_pipe k.global_pipe_table 0) k
  ]

  unfoldable pub pipe_create_named : Option (List ℕ) → Op (Kernel H) ℕ
  unfolding locked create_named
  pipe_create_named none = pure (neg 1)
  pipe_create_named (some name) = locked (create_named name)
