-- ===== src/Syscalls/Redirect.antt =====
-- A descriptor that stands for a pipe: what one process writes is what another reads.
use tp2_so_2025q.Base.{
  ℕ, ◌<◌, ◌^◌, ◌≡◌, refl, ap, ◌∙◌, true, false, some, List, [], arith, ◌==◌, length, get_or, leb,
  lt_int, to_int,
}
use tp2_so_2025q.System.{Kernel}
use tp2_so_2025q.System.Process.{Pcb, max_fd}
use tp2_so_2025q.System.Run.{Run, done, and_then}
use tp2_so_2025q.Pipes.{max_pipes, pipe_buffer_size}
use tp2_so_2025q.Pipes.Held.{Holds}
use tp2_so_2025q.Pipes.Transfer.{pipe_write, pipe_read}
use tp2_so_2025q.Pipes.RoundTrip.{pipe_write_held, pipe_read_held}
use tp2_so_2025q.Syscalls.{Video, Machine, on_kernel, read_from, sys_read, write_to, sys_write}
use tp2_so_2025q.Syscalls.Line.{Runs, sys_read-read_from}

module _ {H W : Type 0} where
  -- In the running process the descriptor stands for the pipe `id`.
  pub record Redirects (m : Machine H W) (fd id : ℕ) : Type 0 where
    pub process : Pcb
    pub running : Runs m process
    pub in_table : fd < max_fd
    pub descriptor : get_or process.file_descriptors fd 0 ≡ id

  read_from_pipe :
      (fuel id n : ℕ) (m : Machine H W) {cs : List ℕ} {k : Kernel H}
      → 2 < id
      → id < max_pipes
      → n < 2 ^ 31
      → pipe_read id true n m.kernel ≡ done (length cs, cs) k
      → read_from fuel id n m ≡ done (length cs, cs) (record m { kernel = k })
  unfolding read_from on_kernel
  read_from_pipe fuel id n m low high small e =
      let not_stdin : (id == 0) ≡ false = ground arith in
      let is_pipe : lt_int 2 id ≡ true = ground arith in
      let same : to_int n ≡ n = omega arith in rw (not_stdin, is_pipe, same, e) refl

  sys_read_pipe :
      (bytes : List ℕ) (fuel fd id l i s : ℕ) (m : Machine H W)
      → Redirects m fd id
      → Holds id l i s bytes m.kernel
      → 2 < id
      → id < max_pipes
      → 0 < length bytes
      → length bytes < pipe_buffer_size
      → (m' : Machine H W) × (sys_read fuel fd (length bytes) m ≡ done (length bytes, bytes) m')
        × Holds id l i s [] m'.kernel
  sys_read_pipe bytes fuel fd id l i s m to h low high pos room =
      let (k, e, h') = pipe_read_held bytes id l i s m.kernel h high pos room in
      let descriptor : to_int (get_or to.process.file_descriptors fd 0) ≡ id =
        ap to_int to.descriptor ∙ omega arith in
      (
        record m { kernel = k },
        sys_read-read_from fuel fd (length bytes) m to.process to.running to.in_table
            ∙ ap (λ r. read_from fuel r (length bytes) m) descriptor
            ∙ read_from_pipe fuel id (length bytes) m low high (omega arith) e,
        h',
      )

module _ {H W : Type 0} (video : Video W) where
  sys_write-write_to :
      (fd count : ℕ) (message : List ℕ) (m : Machine H W) (p : Pcb)
      → Runs m p
      → fd < max_fd
      → sys_write video fd message count m
        ≡ write_to video (to_int (get_or p.file_descriptors fd 0)) message count m
  unfolding sys_write
  sys_write-write_to fd count message m p r valid =
      let in_table : leb max_fd fd ≡ false = ground arith in rw (r.valid, r.there, in_table) refl

  write_to_pipe :
      (id n : ℕ) (message : List ℕ) (m : Machine H W) {a : ℕ} {k : Kernel H}
      → 2 < id
      → id < max_pipes
      → n < 2 ^ 31
      → pipe_write id (some message) n m.kernel ≡ done a k
      → write_to video id message n m ≡ done tt (record m { kernel = k })
  unfolding write_to on_kernel and_then
  write_to_pipe id n message m low high small e =
      let not_stdout : (id == 1) ≡ false = ground arith in
      let not_stderr : (id == 2) ≡ false = ground arith in
      let is_pipe : lt_int 2 id ≡ true = ground arith in
      let same : to_int n ≡ n = omega arith in rw (not_stdout, not_stderr, is_pipe, same, e) refl

  write_then_read :
      (bytes : List ℕ) (fuel fd' : ℕ) (others : Machine H W → Machine H W) (m1 m3 : Machine H W)
      {written : Run (Machine H W) (Unit {0})}
      → written ≡ done tt m1
      → sys_read fuel fd' (length bytes) (others m1) ≡ done (length bytes, bytes) m3
      → and_then written (λ _ m'. sys_read fuel fd' (length bytes) (others m'))
        ≡ done (length bytes, bytes) m3
  unfolding and_then
  write_then_read bytes fuel fd' others m1 m3 e read = rw e read

  -- Bytes, fewer than a pipe holds, that a process writes to a descriptor of an empty pipe, are what
  -- the next reader gets from its descriptor of this pipe, and the pipe is empty again. Between the two
  -- calls the others may do anything that leaves the bytes in the pipe and the reader running. The
  -- pipe is one of those from 3 on, and nobody waits for it.
  pub sys_read-sys_write :
      (bytes : List ℕ) (fuel fd fd' id l i s : ℕ) (others : Machine H W → Machine H W)
      (m : Machine H W)
      → Redirects m fd id
      → Holds id l i s [] m.kernel
      → 2 < id
      → id < max_pipes
      → 0 < length bytes
      → length bytes < pipe_buffer_size
      → ((m' : Machine H W)
          → Holds id l i s bytes m'.kernel
          → Holds id l i s bytes (others m').kernel × Redirects (others m') fd' id)
      → (m3 : Machine H W) × (and_then
            (sys_write video fd bytes (length bytes) m)
            (λ _ m'. sys_read fuel fd' (length bytes) (others m'))
          ≡ done (length bytes, bytes) m3)
        × Holds id l i s [] m3.kernel
  sys_read-sys_write bytes fuel fd fd' id l i s others m to h low high pos room between =
      let (k, e, h') = pipe_write_held id l i s bytes m.kernel h high pos (omega arith) in
      let m1 = record m { kernel = k } in
      let descriptor : to_int (get_or to.process.file_descriptors fd 0) ≡ id =
        ap to_int to.descriptor ∙ omega arith in
      let written =
        sys_write-write_to fd (length bytes) bytes m to.process to.running to.in_table
        ∙ ap (λ r. write_to video r bytes (length bytes) m) descriptor
        ∙ write_to_pipe id (length bytes) bytes m low high (omega arith) e in
      let (held, reader) = between m1 h' in
      let (m3, read, empty) =
        sys_read_pipe bytes fuel fd' id l i s (others m1) reader held low high pos room in
      (m3, write_then_read bytes fuel fd' others m1 m3 written read, empty)
