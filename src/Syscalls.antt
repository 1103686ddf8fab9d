-- ===== src/Syscalls.antt =====
-- Kernel/syscall_handler.c: `sys_read` and `sys_write`, which send the calls of a process to the
-- keyboard, to the screen or to a pipe, by its file descriptors. The screen is the interface `Video`.
pub mod Waiting
pub mod Line
pub mod Redirect
mod Tests
use tp2_so_2025q.Base.{
  ℕ, zero, suc, Bool, true, false, not, ◌||◌, Option, none, some, List, [], ◌∷◌, leb, ◌==◌,
  if◌then◌else◌, length, get_or, take, neg, lt_int, to_int,
}
use tp2_so_2025q.Text.{codes}
use tp2_so_2025q.System.{Kernel, pcb_at}
use tp2_so_2025q.System.Process.{Pcb, max_fd}
use tp2_so_2025q.System.Run.{Run, done, fault, spin, switch, Op, and_then, ◌>>=◌, ◌>>◌, pure}
use tp2_so_2025q.Table.{get_pid, is_pid_valid}
use tp2_so_2025q.Semaphore.{sem_wait}
use tp2_so_2025q.Pipes.Transfer.{pipe_write, pipe_read}
use tp2_so_2025q.Keyboard.{Keyboard, read_key}

-- What the handler calls of the video driver: text in the usual colours, and text in two given ones.
pub record Video (W : Type 0) : Type 0 where
  pub print_cant : List ℕ → W → W
  pub print_color_cant : List ℕ → ℕ → ℕ → W → W

abbrev pub err_color_font : ℕ
err_color_font = 0xff0000

abbrev pub err_color_back : ℕ
err_color_back = 0xdadada

pub record Machine (H W : Type 0) : Type 0 where
  pub keyboard : Keyboard
  pub kernel : Kernel H
  pub shown : W

module _ {H W : Type 0} where
  -- A routine of the kernel, run in the machine; another process may change all of it at a switch.
  unfoldable pub on_kernel : {A : Type 0} → Machine H W → Run (Kernel H) A → Run (Machine H W) A
  on_kernel m (done a k) = done a (record m { kernel = k })
  on_kernel m fault = fault
  on_kernel m spin = spin
  on_kernel m (switch k rest) =
      switch (record m { kernel = k }) (λ m'. on_kernel m' (rest m'.kernel))

  unfoldable pub in_kernel : {A : Type 0} → Op (Kernel H) A → Op (Machine H W) A
  unfolding on_kernel
  in_kernel f m = on_kernel m (f m.kernel)

  unfoldable pub next_key : ℕ → Op (Machine H W) ℕ
  next_key fd m = elim (read_key fd m.keyboard) [
    | none ↦ fault
    | some (c, b) ↦ done c (record m { keyboard = b })
  ]

  -- The branch of `read_chars` for other descriptors than the keyboard's, with the rounds left: the
  -- characters that it counts.
  unfoldable pub read_raw : ℕ → ℕ → Op (Machine H W) (List ℕ)
  unfolding next_key
  read_raw zero fd = pure []
  read_raw (suc r) fd = do
    c ← next_key fd
    if (c == 4) || (c == 0) then pure [] else (do cs ← read_raw r fd; pure (c ∷ cs))

  -- The body of the loop on the keyboard behind the read: a 0 is ignored, Ctrl+D ends the call, and so
  -- does a new line, which is kept.
  unfoldable pub take_key :
      ℕ → Op (Machine H W) (List ℕ) → Op (Machine H W) (List ℕ) → Op (Machine H W) (List ℕ)
  take_key c again next =
      if c == 0
      then again
      else if c == 4
      then pure []
      else if c == 10
      then pure (c ∷ [])
      else (do cs ← next; pure (c ∷ cs))

  -- The loop, with the characters left to read. Reads of 0 are not counted, so the rounds are, by fuel;
  -- without fuel it goes on and on.
  unfoldable pub read_stdin : ℕ → ℕ → Op (Machine H W) (List ℕ)
  unfolding next_key in_kernel take_key
  read_stdin fuel zero = pure []
  read_stdin zero (suc n) = λ m. spin
  read_stdin (suc fuel) (suc n) = do
    _ ← in_kernel (sem_wait (codes "sem_stdin"))
    c ← next_key 0
    take_key c (read_stdin fuel (suc n)) (read_stdin fuel n)

  -- The characters put into the buffer. A length that is negative as an `int` reads nothing.
  unfoldable pub read_chars : ℕ → ℕ → ℕ → Op (Machine H W) (List ℕ)
  unfolding read_stdin read_raw
  read_chars fuel fd count =
      let rounds = if lt_int 0 count then count else 0 in
      if not (fd == 0) then read_raw rounds fd else read_stdin fuel rounds

  -- The block of the process that runs, and what to do without one.
  unfoldable pub with_running : {A : Type 0} → A → (Pcb → Op (Machine H W) A) → Op (Machine H W) A
  with_running otherwise f m =
      if not (is_pid_valid (get_pid m.kernel) m.kernel)
      then done otherwise m
      else elim (pcb_at m.kernel (get_pid m.kernel)) [ none ↦ fault | some p ↦ f p m ]

  -- `sys_read` behind the look up of the descriptor, an `int`.
  unfoldable pub read_from : ℕ → ℕ → ℕ → Op (Machine H W) (ℕ × List ℕ)
  unfolding read_chars in_kernel
  read_from fuel real_fd count =
      if real_fd == 0
      then (do cs ← read_chars fuel real_fd (to_int count); pure (length cs, cs))
      else if lt_int 2 real_fd
      then in_kernel (pipe_read real_fd true (to_int count))
      else pure (neg 1, [])

  -- The answer, and the bytes put into the caller's buffer.
  unfoldable pub sys_read : ℕ → ℕ → ℕ → Op (Machine H W) (ℕ × List ℕ)
  unfolding with_running read_from
  sys_read fuel fd count =
      with_running (neg 1, [])
        (λ p.
          if leb max_fd fd
          then pure (neg 1, [])
          else read_from fuel (to_int (get_or p.file_descriptors fd 0)) count)

module _ {H W : Type 0} (video : Video W) where
  -- `sys_write` behind the look up of the descriptor, an `int`.
  unfoldable pub write_to : ℕ → List ℕ → ℕ → Op (Machine H W) (Unit {0})
  unfolding in_kernel
  write_to real_fd message count m =
      if real_fd == 1
      then done tt (record m { shown = video.print_cant (take count message) m.shown })
      else if real_fd == 2
      then done tt (record m {
        shown = video.print_color_cant (take count message) err_color_font err_color_back m.shown;
      })
      else if lt_int 2 real_fd
      then and_then (in_kernel (pipe_write real_fd (some message) (to_int count)) m)
          (λ _ m'. done tt m')
      else done tt m

  unfoldable pub sys_write : ℕ → List ℕ → ℕ → Op (Machine H W) (Unit {0})
  unfolding with_running write_to
  sys_write fd message count = with_running tt (λ p.
      if leb max_fd fd
      then pure tt
      else write_to (to_int (get_or p.file_descriptors fd 0)) message count)
