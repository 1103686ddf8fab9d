-- ===== src/Pipes/Full.antt =====
-- A full pipe: the indices of its ring meet, as those of an empty one do.
use tp2_so_2025q.Base.{
  ℕ, zero, suc, ◌^◌, ◌<◌, ◌≡◌, refl, ap, ◌∙◌, true, some, none, List, [], arith, ◌==◌, length,
  get_elem?, lt_int,
}
use tp2_so_2025q.System.{Kernel}
use tp2_so_2025q.System.Run.{done, and_then}
use tp2_so_2025q.Semaphore.{sem_wait}
use tp2_so_2025q.Pipes.{max_pipes, pipe_buffer_size}
use tp2_so_2025q.Pipes.Permits.{sem_wait_free, sem_post_free}
use tp2_so_2025q.Pipes.Transfer.{read_locked, read_round, read_rounds, read_open, pipe_read}
use tp2_so_2025q.Pipes.Held.{Loaded, with_pipe_at, items-Moved, lock-Moved}
use tp2_so_2025q.Pipes.RoundTrip.{valid_id}

module _ {H : Type 0} where
  full_round :
      (id l i s n : ℕ) (bs : List ℕ) (k : Kernel H) (h : Loaded id l i s bs (suc n) k)
      → h.pipe.eof_signaled ≡ true
      → length bs ≡ pipe_buffer_size
      → suc n < 2 ^ 31
      → (k' : Kernel H) × (read_round id k ≡ done none k')
  unfolding read_round and_then read_locked
  full_round id l i s n bs k h ended full few =
      let p = h.pipe in
      let (k1, e1, d1) = sem_wait_free k p.sem_items_available_name i n h.sems.items few in
      let m1 = items-Moved h.sems d1 in
      let at1 : get_elem? k1.global_pipe_table id ≡ some p =
        ap (λ t. get_elem? t id) d1.pipes ∙ h.at in
      let (k2, e2, d2) = sem_wait_free k1 p.sem_pipe_lock_name l 0 m1.lock (omega arith) in
      let m2 = lock-Moved m1 d2 in
      let at2 : get_elem? k2.global_pipe_table id ≡ some p =
        ap (λ t. get_elem? t id) d2.pipes ∙ at1 in
      let meet : (p.read_index == p.write_index) ≡ true =
        let same : p.read_index ≡ p.write_index = omega (arith, h.ring.read, h.ring.write, full) in
        ground arith in
      let (k3, e3, d3) = sem_post_free k2 p.sem_pipe_lock_name l 0 m2.lock (omega arith) in
      (
        k3,
        rw
            (
              with_pipe_at id (λ p. sem_wait p.sem_items_available_name) k p h.at,
              e1,
              and_then,
              with_pipe_at id (λ p. sem_wait p.sem_pipe_lock_name) k1 p at1,
              e2,
              with_pipe_at id (read_locked id) k2 p at2,
              read_locked,
              meet,
              e3,
              and_then,
              ended,
            )
            refl,
      )

  -- Of a full pipe whose end is signalled, that nobody waits for and whose count of items is
  -- positive, as `pipe_close` leaves it, a read of at least one byte returns 0 bytes, as if nothing
  -- were left.
  pub full_reads_as_empty :
      (id l i s n count : ℕ) (bs : List ℕ) (k : Kernel H) (h : Loaded id l i s bs (suc n) k)
      → h.pipe.eof_signaled ≡ true
      → length bs ≡ pipe_buffer_size
      → suc n < 2 ^ 31
      → id < max_pipes
      → 0 < count
      → count < 2 ^ 31
      → (k' : Kernel H) × (pipe_read id true count k ≡ done (0, []) k')
  unfolding pipe_read read_open read_rounds and_then
  full_reads_as_empty id l i s n zero bs k h ended full few valid pos small = absurd (omega arith)
  full_reads_as_empty id l i s n (suc r) bs k h ended full few valid pos small =
      let (k', e) = full_round id l i s n bs k h ended full few in
      let counts : lt_int 0 (suc r) ≡ true = ground arith in
      (
        k',
        rw
            (
              valid_id id valid,
              counts,
              with_pipe_at id (read_open id (suc r)) k h.pipe h.at,
              h.used,
              e,
              and_then,
            )
            refl,
      )
