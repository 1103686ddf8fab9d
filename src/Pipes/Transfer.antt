-- ===== src/Pipes/Transfer.antt =====
-- `pipe_close`, `pipe_register`, `pipe_write` and `pipe_read` of Kernel/pipes.c.
use tp2_so_2025q.Base.{
  ℕ, zero, suc, Bool, true, false, not, ◌&&◌, ◌||◌, Option, none, some, List, [], ◌∷◌, leb, ◌==◌,
  if◌then◌else◌, length, get_elem?, get_or, add32, sub32, neg, is_negative, lt_int,
}
use tp2_so_2025q.System.{Kernel, Pipe}
use tp2_so_2025q.System.Run.{fault, Op, ◌>>=◌, ◌>>◌, pure}
use tp2_so_2025q.Semaphore.{sem_wait, sem_post, sem_close}
use tp2_so_2025q.Pipes.{
  max_pipes, pipe_read_end, pipe_write_end, put_byte, take_byte, change_pipe, with_pipe, locked,
}

-- A mode of `pipe_close` and `pipe_register` is an `int`; other values than the two ends change no count.
unfoldable pub one_less : ℕ → ℕ
one_less n = if lt_int 0 n then sub32 n 1 else n

unfoldable pub close_reader : Pipe → Pipe
unfolding one_less
close_reader p = record p { read_open_count = one_less p.read_open_count }

unfoldable pub close_writer : Pipe → Pipe
unfolding one_less
close_writer p = record p { write_open_count = one_less p.write_open_count }

unfoldable pub count_opening : ℕ → Pipe → Pipe
count_opening mode p =
    let q = record p { ref_count = add32 p.ref_count 1 } in
    let r =
      if mode == pipe_read_end
      then (record q { read_open_count = add32 q.read_open_count 1 })
      else q in
    if mode == pipe_write_end
    then (record r { write_open_count = add32 r.write_open_count 1 })
    else r

-- `pipe_id < 0 || pipe_id >= MAX_PIPES`.
unfoldable pub no_pipe_id : ℕ → Bool
no_pipe_id id = is_negative id || leb max_pipes id

module _ {H : Type 0} where
  unfoldable pub post_times : ℕ → List ℕ → Op (Kernel H) (Unit {0})
  post_times zero name = pure tt
  post_times (suc r) name = do _ ← sem_post name; post_times r name

  -- The last writer gone, up to ten blocked readers are woken, once.
  unfoldable pub signal_eof : ℕ → Pipe → Op (Kernel H) (Unit {0})
  unfolding change_pipe post_times
  signal_eof id p =
      if (p.write_open_count == 0) && not p.eof_signaled
      then (do
        change_pipe id (λ q. record q { eof_signaled = true })
        post_times 10 p.sem_items_available_name)
      else pure tt

  unfoldable pub close_end : ℕ → ℕ → Op (Kernel H) (Unit {0})
  unfolding change_pipe with_pipe close_writer close_reader signal_eof
  close_end id mode =
      if mode == pipe_write_end
      then (do change_pipe id close_writer; with_pipe id (signal_eof id))
      else if mode == pipe_read_end
      then change_pipe id close_reader
      else pure tt

  -- With no reference left the semaphores are closed and the slot is free.
  unfoldable pub drop_pipe : ℕ → Pipe → Op (Kernel H) (Unit {0})
  unfolding change_pipe
  drop_pipe id p =
      if p.ref_count == 0
      then (do
        _ ← sem_close p.sem_pipe_lock_name
        _ ← sem_close p.sem_items_available_name
        _ ← sem_close p.sem_empty_space_available_name
        change_pipe id (λ q. record q { is_in_use = false }))
      else pure tt

  unfoldable pub close_open : ℕ → ℕ → Pipe → Op (Kernel H) ℕ
  unfolding close_end drop_pipe
  close_open id mode p = if not p.is_in_use then pure (neg 1) else (do
    close_end id mode
    change_pipe id (λ q. record q { ref_count = sub32 q.ref_count 1 })
    with_pipe id (drop_pipe id)
    pure 0)

  unfoldable pub pipe_close : ℕ → ℕ → Op (Kernel H) ℕ
  unfolding no_pipe_id locked close_open
  pipe_close id mode =
      if no_pipe_id id then pure (neg 1) else locked (with_pipe id (close_open id mode))

  unfoldable pub register_open : ℕ → ℕ → Pipe → Op (Kernel H) ℕ
  unfolding locked count_opening
  register_open id mode p =
      if not p.is_in_use
      then pure (neg 1)
      else locked (do change_pipe id (count_opening mode); pure 0)

  unfoldable pub pipe_register : ℕ → ℕ → Op (Kernel H) ℕ
  unfolding no_pipe_id with_pipe register_open
  pipe_register id mode =
      if no_pipe_id id then pure (neg 1) else with_pipe id (register_open id mode)

  -- One round of `pipe_write`.
  unfoldable pub write_byte : ℕ → ℕ → Op (Kernel H) (Unit {0})
  unfolding with_pipe change_pipe put_byte
  write_byte id b = do
    _ ← with_pipe id (λ p. sem_wait p.sem_empty_space_available_name)
    _ ← with_pipe id (λ p. sem_wait p.sem_pipe_lock_name)
    change_pipe id (put_byte b)
    _ ← with_pipe id (λ p. sem_post p.sem_pipe_lock_name)
    _ ← with_pipe id (λ p. sem_post p.sem_items_available_name)
    pure tt

  -- The loop with the rounds left: `i` is the next byte of the caller's buffer.
  unfoldable pub write_from : ℕ → ℕ → List ℕ → ℕ → Op (Kernel H) ℕ
  unfolding write_byte
  write_from zero id buffer i = pure i
  write_from (suc r) id buffer i = elim (get_elem? buffer i) [
    | none ↦ λ k. fault
    | some b ↦ (do write_byte id b; write_from r id buffer (suc i))
  ]

  unfoldable pub write_open : ℕ → List ℕ → ℕ → Pipe → Op (Kernel H) ℕ
  unfolding write_from
  write_open id buffer count p =
      if not p.is_in_use then pure (neg 1) else write_from count id buffer 0

  unfoldable pub pipe_write : ℕ → Option (List ℕ) → ℕ → Op (Kernel H) ℕ
  unfolding no_pipe_id with_pipe write_open
  pipe_write id none count = pure (neg 1)
  pipe_write id (some buffer) count =
      if no_pipe_id id || not (lt_int 0 count)
      then pure (neg 1)
      else with_pipe id (write_open id buffer count)

  -- The part of a round of `pipe_read` behind the test for an empty ring: the byte read.
  unfoldable pub read_byte : ℕ → Pipe → Op (Kernel H) ℕ
  unfolding change_pipe with_pipe take_byte
  read_byte id p = do
    change_pipe id take_byte
    _ ← with_pipe id (λ p. sem_post p.sem_pipe_lock_name)
    _ ← with_pipe id (λ p. sem_post p.sem_empty_space_available_name)
    pure (get_or p.buffer p.read_index 0)

  -- What a round does inside the lock; `none` ends the call. Where the indices meet and the end is
  -- not signalled, the lock is posted and the byte is read all the same.
  unfoldable pub read_locked : ℕ → Pipe → Op (Kernel H) (Option ℕ)
  unfolding read_byte
  read_locked id p =
      if p.read_index == p.write_index
      then (do
        _ ← sem_post p.sem_pipe_lock_name
        if p.eof_signaled then pure none else (do b ← read_byte id p; pure (some b)))
      else (do b ← read_byte id p; pure (some b))

  unfoldable pub read_round : ℕ → Op (Kernel H) (Option ℕ)
  unfolding read_locked
  read_round id = do
    _ ← with_pipe id (λ p. sem_wait p.sem_items_available_name)
    _ ← with_pipe id (λ p. sem_wait p.sem_pipe_lock_name)
    with_pipe id (read_locked id)

  -- The bytes that the call stores in the caller's buffer from its start on, at most as many as there
  -- are rounds; their number is what the call returns.
  unfoldable pub read_rounds : ℕ → ℕ → Op (Kernel H) (List ℕ)
  unfolding read_round
  read_rounds zero id = pure []
  read_rounds (suc r) id = do
    b ← read_round id
    elim b [ none ↦ pure [] | some c ↦ (do cs ← read_rounds r id; pure (c ∷ cs)) ]

  unfoldable pub read_open : ℕ → ℕ → Pipe → Op (Kernel H) (ℕ × List ℕ)
  unfolding read_rounds
  read_open id count p =
      if not p.is_in_use
      then pure (neg 1, [])
      else (do bytes ← read_rounds count id; pure (length bytes, bytes))

  -- The answer, and the bytes stored in the buffer; the flag says that there is a buffer.
  unfoldable pub pipe_read : ℕ → Bool → ℕ → Op (Kernel H) (ℕ × List ℕ)
  unfolding no_pipe_id with_pipe read_open
  pipe_read id buffer count =
      if no_pipe_id id || (not buffer || not (lt_int 0 count))
      then pure (neg 1, [])
      else with_pipe id (read_open id count)
