-- ===== src/Pipes/Queue.antt =====
-- A pipe that nobody waits on is a queue of bytes, a round of `pipe_write` or `pipe_read` at a time.
use tp2_so_2025q.Base.{
  ℕ, suc, ◌-◌, ◌^◌, ◌<◌, ◌≡◌, ◌≢◌, refl, ap, sym, subst, ◌∙◌, false, some, List, [], ◌∷◌, ◌++◌,
  arith, ◌==◌, length, length-append, get_elem?, get_elem?-set_self, get_or,
}
use tp2_so_2025q.System.{Kernel}
use tp2_so_2025q.System.Run.{done, and_then}
use tp2_so_2025q.Semaphore.{sem_wait, sem_post}
use tp2_so_2025q.Pipes.{pipe_buffer_size, put_byte, take_byte, put_pipe}
use tp2_so_2025q.Pipes.Transfer.{write_byte, read_byte, read_locked, read_round}
use tp2_so_2025q.Pipes.Permits.{Permits, sem_wait_free, sem_post_free}
use tp2_so_2025q.Pipes.Ring.{RingIsValid, queue, put_byte-queue, take_byte-queue}
use tp2_so_2025q.Pipes.Held.{
  get_elem?-lt, Sems, Loaded, with_pipe_at, change_pipe_at, Sems-put_pipe, lock-Moved, items-Moved,
  space-Moved,
}

module _ {H : Type 0} where
  -- A round of `pipe_write` on a pipe that is not full.
  pub write_byte_lem :
      (id l i s b x : ℕ) (bs : List ℕ) (k : Kernel H)
      → Loaded id l i s bs x k
      → length bs < pipe_buffer_size
      → suc x < 2 ^ 31
      → (k' : Kernel H) × (write_byte id b k ≡ done tt k')
        × Loaded id l i s (bs ++ b ∷ []) (suc x) k'
  unfolding write_byte and_then put_byte
  write_byte_lem id l i s b x bs k h room few =
      let p = h.pipe in
      let n = length bs in
      let z = pipe_buffer_size - suc n in
      let more : pipe_buffer_size - n ≡ suc z = omega arith in
      let (k1, e1, d1) =
        sem_wait_free k p.sem_empty_space_available_name s z
          (subst (Permits k p.sem_empty_space_available_name s) more h.sems.space) (omega arith) in
      let m1 = space-Moved h.sems d1 in
      let at1 : get_elem? k1.global_pipe_table id ≡ some p =
        ap (λ t. get_elem? t id) d1.pipes ∙ h.at in
      let (k2, e2, d2) = sem_wait_free k1 p.sem_pipe_lock_name l 0 m1.lock (omega arith) in
      let m2 = lock-Moved m1 d2 in
      let at2 : get_elem? k2.global_pipe_table id ≡ some p =
        ap (λ t. get_elem? t id) d2.pipes ∙ at1 in
      let q = put_byte b p in
      let m3 = Sems-put_pipe id q (record { lock = refl; items = refl; space = refl }) m2 in
      let k3 = put_pipe id q k2 in
      let at3 : get_elem? k3.global_pipe_table id ≡ some q =
        get_elem?-set_self k2.global_pipe_table id q (get_elem?-lt k2.global_pipe_table id p at2) in
      let (k4, e4, d4) = sem_post_free k3 p.sem_pipe_lock_name l 0 m3.lock (omega arith) in
      let m4 = lock-Moved m3 d4 in
      let at4 : get_elem? k4.global_pipe_table id ≡ some q =
        ap (λ t. get_elem? t id) d4.pipes ∙ at3 in
      let (k5, e5, d5) = sem_post_free k4 p.sem_items_available_name i x m4.items few in
      let m5 = items-Moved m4 d5 in
      let size : length (bs ++ b ∷ []) ≡ suc n = omega (arith, length-append bs (b ∷ [])) in
      let (ring, bytes) = put_byte-queue p n b h.ring room in
      (
        k5,
        rw
            (
              with_pipe_at id (λ p. sem_wait p.sem_empty_space_available_name) k p h.at,
              e1,
              and_then,
              with_pipe_at id (λ p. sem_wait p.sem_pipe_lock_name) k1 p at1,
              e2,
              change_pipe_at id (put_byte b) k2 p at2,
              with_pipe_at id (λ p. sem_post p.sem_pipe_lock_name) k3 q at3,
              e4,
              with_pipe_at id (λ p. sem_post p.sem_items_available_name) k4 q at4,
              e5,
            )
            refl,
        record {
          pipe = q;
          at = ap (λ t. get_elem? t id) d5.pipes ∙ at4;
          used = h.used;
          ring = subst (RingIsValid q) (sym size) ring;
          bytes = ap (queue q) size ∙ (bytes ∙ ap (λ xs. xs ++ b ∷ []) h.bytes);
          sems = subst (λ m. Sems k5 q l i s 1 (suc x) (pipe_buffer_size - m)) (sym size) m5;
        },
      )

  -- A round of `pipe_read` on a pipe that is neither empty nor full.
  pub read_round_lem :
      (id l i s b x : ℕ) (bs : List ℕ) (k : Kernel H)
      → Loaded id l i s (b ∷ bs) (suc x) k
      → suc (length bs) < pipe_buffer_size
      → suc x < 2 ^ 31
      → (k' : Kernel H) × (read_round id k ≡ done (some b) k') × Loaded id l i s bs x k'
  unfolding read_round and_then read_locked read_byte take_byte
  read_round_lem id l i s b x bs k h room few =
      let p = h.pipe in
      let n = length bs in
      let z = pipe_buffer_size - suc n in
      let (k1, e1, d1) = sem_wait_free k p.sem_items_available_name i x h.sems.items few in
      let m1 = items-Moved h.sems d1 in
      let at1 : get_elem? k1.global_pipe_table id ≡ some p =
        ap (λ t. get_elem? t id) d1.pipes ∙ h.at in
      let (k2, e2, d2) = sem_wait_free k1 p.sem_pipe_lock_name l 0 m1.lock (omega arith) in
      let m2 = lock-Moved m1 d2 in
      let at2 : get_elem? k2.global_pipe_table id ≡ some p =
        ap (λ t. get_elem? t id) d2.pipes ∙ at1 in
      let apart : (p.read_index == p.write_index) ≡ false =
        let ne : p.read_index ≢ p.write_index = λ e. omega (arith, h.ring.read, h.ring.write) in
        ground arith in
      let q = take_byte p in
      let m3 = Sems-put_pipe id q (record { lock = refl; items = refl; space = refl }) m2 in
      let k3 = put_pipe id q k2 in
      let at3 : get_elem? k3.global_pipe_table id ≡ some q =
        get_elem?-set_self k2.global_pipe_table id q (get_elem?-lt k2.global_pipe_table id p at2) in
      let (k4, e4, d4) = sem_post_free k3 p.sem_pipe_lock_name l 0 m3.lock (omega arith) in
      let m4 = lock-Moved m3 d4 in
      let at4 : get_elem? k4.global_pipe_table id ≡ some q =
        ap (λ t. get_elem? t id) d4.pipes ∙ at3 in
      let (k5, e5, d5) =
        sem_post_free k4 p.sem_empty_space_available_name s z m4.space (omega arith) in
      let m5 = space-Moved m4 d5 in
      let more : suc z ≡ pipe_buffer_size - n = omega arith in
      let (ring, bytes) = take_byte-queue p n h.ring in
      let split : get_or p.buffer p.read_index 0 ∷ queue q n ≡ b ∷ bs = sym bytes ∙ h.bytes in
      let head : get_or p.buffer p.read_index 0 ≡ b = ground arith in
      (
        k5,
        rw
            (
              with_pipe_at id (λ p. sem_wait p.sem_items_available_name) k p h.at,
              e1,
              and_then,
              with_pipe_at id (λ p. sem_wait p.sem_pipe_lock_name) k1 p at1,
              e2,
              with_pipe_at id (read_locked id) k2 p at2,
              read_locked,
              apart,
              change_pipe_at id take_byte k2 p at2,
              with_pipe_at id (λ p. sem_post p.sem_pipe_lock_name) k3 q at3,
              e4,
              with_pipe_at id (λ p. sem_post p.sem_empty_space_available_name) k4 q at4,
              e5,
              head,
            )
            refl,
        record {
          pipe = q;
          at = ap (λ t. get_elem? t id) d5.pipes ∙ at4;
          used = h.used;
          ring = ring;
          bytes = ground arith;
          sems = subst (λ m. Sems k5 q l i s 1 x m) more m5;
        },
      )
