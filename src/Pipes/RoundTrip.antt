-- ===== src/Pipes/RoundTrip.antt =====
-- Whole calls of `pipe_write` and `pipe_read` on a pipe that nobody waits on.
use tp2_so_2025q.Base.{
  ℕ, zero, suc, ◌+◌, ◌^◌, ◌≤◌, ◌<◌, ◌≡◌, refl, ap, sym, subst, ◌∙◌, true, false, some, List, [],
  ◌∷◌, ◌++◌, arith, length, length-append, get_elem?-some, take, take-length, drop, drop-cons,
  append_assoc, append-nil, lt_int,
}
use tp2_so_2025q.System.{Kernel}
use tp2_so_2025q.System.Run.{done, and_then}
use tp2_so_2025q.Pipes.{max_pipes, pipe_buffer_size}
use tp2_so_2025q.Pipes.Transfer.{
  no_pipe_id, write_from, write_open, pipe_write, read_rounds, read_open, pipe_read,
}
use tp2_so_2025q.Pipes.Queue.{write_byte_lem, read_round_lem}
use tp2_so_2025q.Pipes.Held.{Loaded, Holds, with_pipe_at}

pub valid_id : (id : ℕ) → id < max_pipes → no_pipe_id id ≡ false
unfolding no_pipe_id
valid_id id h = ground arith

module _ {H : Type 0} where
  write_from_lem :
      (r id l i s j x : ℕ) (buffer bs : List ℕ) (k : Kernel H)
      → Loaded id l i s bs x k
      → j + r ≤ length buffer
      → length bs + r ≤ pipe_buffer_size
      → x + r < 2 ^ 31
      → (k' : Kernel H) × (write_from r id buffer j k ≡ done (j + r) k')
        × Loaded id l i s (bs ++ take r (drop j buffer)) (x + r) k'
  unfolding write_from and_then
  write_from_lem zero id l i s j x buffer bs k h inside room few =
      let same : j ≡ j + 0 = omega arith in
      let count : x ≡ x + 0 = omega arith in
      (
        k,
        ap (λ m. done m k) same,
        subst (λ y. Loaded id l i s (bs ++ []) y k) count
            (subst (λ xs. Loaded id l i s xs x k) (sym (append-nil bs)) h),
      )
  write_from_lem (suc r) id l i s j x buffer bs k h inside room few =
      let (b, at) = get_elem?-some buffer j (omega arith) in
      let (k1, e1, h1) = write_byte_lem id l i s b x bs k h (omega arith) (omega arith) in
      let (k2, e2, h2) =
        write_from_lem r id l i s (suc j) (suc x) buffer (bs ++ b ∷ []) k1 h1 (omega arith)
          (omega (arith, length-append bs (b ∷ []))) (omega arith) in
      let same : suc j + r ≡ j + suc r = omega arith in
      let count : suc x + r ≡ x + suc r = omega arith in
      let split : (bs ++ b ∷ []) ++ take r (drop (suc j) buffer)
          ≡ bs ++ take (suc r) (drop j buffer) =
        append_assoc bs (b ∷ []) (take r (drop (suc j) buffer))
        ∙ ap (λ xs. bs ++ take (suc r) xs) (sym (drop-cons buffer j b at)) in
      (
        k2,
        rw (at, write_from, e1, and_then, e2) (ap (λ m. done m k2) same),
        subst (λ y. Loaded id l i s (bs ++ take (suc r) (drop j buffer)) y k2) count
            (subst (λ xs. Loaded id l i s xs (suc x + r) k2) split h2),
      )

  -- A write of at least one byte that fits into a pipe that nobody waits for, whether or not its end
  -- is signalled, returns the number of its bytes, without giving up the CPU. They stand behind the
  -- bytes that were there, and the count of items, which stays an `int`, has grown by their number.
  pub pipe_write_lem :
      (id l i s count x : ℕ) (buffer bs : List ℕ) (k : Kernel H)
      → Loaded id l i s bs x k
      → id < max_pipes
      → 0 < count
      → count ≤ length buffer
      → length bs + count ≤ pipe_buffer_size
      → x + count < 2 ^ 31
      → (k' : Kernel H) × (pipe_write id (some buffer) count k ≡ done count k')
        × Loaded id l i s (bs ++ take count buffer) (x + count) k'
  unfolding pipe_write write_open
  pipe_write_lem id l i s count x buffer bs k h valid pos inside room few =
      let (k', e, h') = write_from_lem count id l i s 0 x buffer bs k h (omega arith) room few in
      let whole : 0 + count ≡ count = omega arith in
      let counts : lt_int 0 count ≡ true = ground arith in
      (
        k',
        rw
            (
              valid_id id valid,
              counts,
              with_pipe_at id (write_open id buffer count) k h.pipe h.at,
              h.used,
              e,
              whole,
            )
            refl,
        h',
      )

  -- Where all the bytes that the count of items says are there.
  pub pipe_write_held :
      (id l i s : ℕ) (bytes : List ℕ) (k : Kernel H)
      → Holds id l i s [] k
      → id < max_pipes
      → 0 < length bytes
      → length bytes ≤ pipe_buffer_size
      → (k' : Kernel H) × (pipe_write id (some bytes) (length bytes) k ≡ done (length bytes) k')
        × Holds id l i s bytes k'
  pipe_write_held id l i s bytes k h valid pos room =
      let (k', e, h') =
        pipe_write_lem id l i s (length bytes) 0 bytes [] k h valid pos (omega arith) (omega arith)
          (omega arith) in
      let none : 0 + length bytes ≡ length bytes = omega arith in
      (
        k',
        e,
        subst (λ y. Loaded id l i s bytes y k') none
            (subst (λ xs. Loaded id l i s xs (0 + length bytes) k') (take-length bytes) h'),
      )

  read_rounds_lem :
      (cs : List ℕ) (id l i s x : ℕ) (bs : List ℕ) (k : Kernel H)
      → Loaded id l i s (cs ++ bs) (length cs + x) k
      → length (cs ++ bs) < pipe_buffer_size
      → length cs + x < 2 ^ 31
      → (k' : Kernel H) × (read_rounds (length cs) id k ≡ done cs k') × Loaded id l i s bs x k'
  unfolding read_rounds and_then
  read_rounds_lem [] id l i s x bs k h room few =
      let none : 0 + x ≡ x = omega arith in (k, refl, subst (λ y. Loaded id l i s bs y k) none h)
  read_rounds_lem (c ∷ cs) id l i s x bs k h room few =
      let more : length (c ∷ cs) + x ≡ suc (length cs + x) = omega arith in
      let (k1, e1, h1) =
        read_round_lem id l i s c (length cs + x) (cs ++ bs) k
          (subst (λ y. Loaded id l i s (c ∷ (cs ++ bs)) y k) more h) room (omega arith) in
      let (k2, e2, h2) = read_rounds_lem cs id l i s x bs k1 h1 (omega arith) (omega arith) in
      (k2, rw (e1, and_then, e2) refl, h2)

  -- A read of at least one byte and no more than the pipe holds, from a pipe that is not full and
  -- that nobody waits for, whether or not its end is signalled, returns the oldest ones, without
  -- giving up the CPU. The others stay, and the count of items, which is an `int` and no less than
  -- the number of bytes read, is down by this number.
  pub pipe_read_lem :
      (cs : List ℕ) (id l i s x : ℕ) (bs : List ℕ) (k : Kernel H)
      → Loaded id l i s (cs ++ bs) (length cs + x) k
      → id < max_pipes
      → 0 < length cs
      → length (cs ++ bs) < pipe_buffer_size
      → length cs + x < 2 ^ 31
      → (k' : Kernel H) × (pipe_read id true (length cs) k ≡ done (length cs, cs) k')
        × Loaded id l i s bs x k'
  unfolding pipe_read read_open and_then
  pipe_read_lem cs id l i s x bs k h valid pos room few =
      let (k', e, h') = read_rounds_lem cs id l i s x bs k h room few in
      let counts : lt_int 0 (length cs) ≡ true = ground (arith, length-append cs bs) in
      (
        k',
        rw
            (
              valid_id id valid,
              counts,
              with_pipe_at id (read_open id (length cs)) k h.pipe h.at,
              h.used,
              e,
              and_then,
            )
            refl,
        h',
      )

  -- All the bytes at once.
  pub pipe_read_held :
      (bytes : List ℕ) (id l i s : ℕ) (k : Kernel H)
      → Holds id l i s bytes k
      → id < max_pipes
      → 0 < length bytes
      → length bytes < pipe_buffer_size
      → (k' : Kernel H) × (pipe_read id true (length bytes) k ≡ done (length bytes, bytes) k')
        × Holds id l i s [] k'
  pipe_read_held bytes id l i s k h valid pos room =
      let all : length bytes ≡ length bytes + 0 = omega arith in
      pipe_read_lem bytes id l i s 0 [] k
        (subst (λ y. Loaded id l i s (bytes ++ []) y k) all
          (subst (λ xs. Loaded id l i s xs (length bytes) k) (sym (append-nil bytes)) h))
        valid pos (omega (arith, length-append bytes [])) (omega arith)

  -- Bytes written into an empty pipe, at least one and fewer than its buffer holds, come back from
  -- the next read, which leaves it empty. Nobody waits for the pipe, and its end is not signalled:
  -- the counts of its semaphores are those of an empty pipe.
  pub pipe_read-pipe_write :
      (id l i s : ℕ) (bytes : List ℕ) (k : Kernel H)
      → Holds id l i s [] k
      → id < max_pipes
      → 0 < length bytes
      → length bytes < pipe_buffer_size
      → (k' : Kernel H) × (and_then
            (pipe_write id (some bytes) (length bytes) k)
            (λ n. pipe_read id true n)
          ≡ done (length bytes, bytes) k')
        × Holds id l i s [] k'
  unfolding and_then
  pipe_read-pipe_write id l i s bytes k h valid pos room =
      let (k1, e1, h1) = pipe_write_held id l i s bytes k h valid pos (omega arith) in
      let (k2, e2, h2) = pipe_read_held bytes id l i s k1 h1 valid pos room in
      (k2, rw (e1, and_then, e2) refl, h2)
