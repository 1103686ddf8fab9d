-- ===== src/Syscalls/Line.antt =====
-- A line that waits in the keyboard is read whole.
use tp2_so_2025q.Base.{
  ℕ, zero, suc, ◌+◌, ◌<◌, ◌^◌, ◌≡◌, ◌≢◌, refl, ap, subst, ◌∙◌, true, false, some, List, [], ◌∷◌,
  ◌++◌, arith, ◌==◌, length, length-append, get_or, leb, lt_int, to_int,
}
use tp2_so_2025q.Text.{codes}
use tp2_so_2025q.System.{pcb_at}
use tp2_so_2025q.System.Process.{Pcb, max_fd}
use tp2_so_2025q.System.Run.{Op, done, and_then}
use tp2_so_2025q.Table.{get_pid, is_pid_valid}
use tp2_so_2025q.Semaphore.{sem_wait}
use tp2_so_2025q.Pipes.Permits.{Permits, sem_wait_free}
use tp2_so_2025q.Syscalls.{
  Machine, on_kernel, in_kernel, next_key, take_key, read_stdin, read_chars, read_from, sys_read,
}
use tp2_so_2025q.Syscalls.Waiting.{Waiting, read_key-Waiting}

-- Characters that end no read: no NUL, no Ctrl+D and no new line.
abbrev pub AreInLine : List ℕ → Type 0
AreInLine [] = Unit
AreInLine (c ∷ cs) = (c ≢ 0) × (c ≢ 4) × (c ≢ 10) × AreInLine cs

module _ {H W : Type 0} where
  -- `p` is the process that runs.
  pub record Runs (m : Machine H W) (p : Pcb) : Type 0 where
    pub valid : is_pid_valid (get_pid m.kernel) m.kernel ≡ true
    pub there : pcb_at m.kernel (get_pid m.kernel) ≡ some p

  -- The characters wait in the keyboard, each with a permit of its semaphore, and `v` more.
  pub record Typed (m : Machine H W) (cs : List ℕ) (i v : ℕ) : Type 0 where
    pub keys : Waiting m.keyboard cs
    pub permits : Permits m.kernel (codes "sem_stdin") i (length cs + v)
    pub small : length cs + v < 2 ^ 31

  -- The first steps of a round: a permit and the oldest character.
  next_key-Typed :
      (c : ℕ) (cs : List ℕ) (i v : ℕ) (m : Machine H W)
      → Typed m (c ∷ cs) i v
      → (m1 : Machine H W) × (m2 : Machine H W) × (in_kernel (sem_wait (codes "sem_stdin")) m
          ≡ done 0 m1)
        × (next_key 0 m1 ≡ done c m2)
        × Typed m2 cs i v
  unfolding in_kernel next_key
  next_key-Typed c cs i v m t =
      let more : length (c ∷ cs) + v ≡ suc (length cs + v) = omega arith in
      let (k', e, moved) =
        sem_wait_free m.kernel (codes "sem_stdin") i (length cs + v)
          (subst (Permits m.kernel (codes "sem_stdin") i) more t.permits)
          (omega (arith, t.small)) in
      let (b', read, w) = read_key-Waiting c cs m.keyboard t.keys in
      (
        record m { kernel = k' },
        record m { kernel = k'; keyboard = b' },
        rw (e, on_kernel) refl,
        rw (read, next_key) refl,
        record { keys = w; permits = moved.here; small = omega (arith, t.small) },
      )

  -- A round takes one character, whatever the rest of the loop does.
  read_stdin-step :
      (fuel n c : ℕ) (cs : List ℕ) (i v : ℕ) (m : Machine H W)
      → Typed m (c ∷ cs) i v
      → (m' : Machine H W) × (read_stdin (suc fuel) (suc n) m
          ≡ take_key c (read_stdin fuel (suc n)) (read_stdin fuel n) m')
        × Typed m' cs i v
  unfolding read_stdin and_then
  read_stdin-step fuel n c cs i v m t =
      let (m1, m2, e, read, t') = next_key-Typed c cs i v m t in
      (m2, rw (e, and_then, read) refl, t')

  -- A character of the line goes on with the next one.
  take_key-next :
      (c : ℕ) (again next : Op (Machine H W) (List ℕ)) (m : Machine H W) {cs : List ℕ}
      {m' : Machine H W}
      → c ≢ 0
      → c ≢ 4
      → c ≢ 10
      → next m ≡ done cs m'
      → take_key c again next m ≡ done (c ∷ cs) m'
  unfolding take_key and_then
  take_key-next c again next m nul eof end rest =
      let z : (c == 0) ≡ false = ground arith in
      let d : (c == 4) ≡ false = ground arith in
      let l : (c == 10) ≡ false = ground arith in rw (z, d, l, rest) refl

  read_stdin_line :
      (line more : List ℕ) (fuel n i v : ℕ) (m : Machine H W)
      → Typed m (line ++ 10 ∷ more) i v
      → AreInLine line
      → length line < n
      → length line < fuel
      → (m' : Machine H W) × (read_stdin fuel n m ≡ done (line ++ 10 ∷ []) m') × Typed m' more i v
  read_stdin_line [] more fuel zero i v m t h room enough = absurd (omega arith)
  read_stdin_line [] more zero (suc n) i v m t h room enough = absurd (omega arith)
  read_stdin_line [] more (suc fuel) (suc n) i v m t h room enough =
      let (m', e, t') = read_stdin-step fuel n 10 more i v m t in
      (m', e ∙ unfold take_key in refl, t')
  read_stdin_line (c ∷ line) more fuel zero i v m t h room enough = absurd (omega arith)
  read_stdin_line (c ∷ line) more zero (suc n) i v m t h room enough = absurd (omega arith)
  read_stdin_line (c ∷ line) more (suc fuel) (suc n) i v m t h room enough =
      let (m1, e, t1) = read_stdin-step fuel n c (line ++ 10 ∷ more) i v m t in
      let (m', rest, t') =
        read_stdin_line line more fuel n i v m1 t1 h.3 (omega arith) (omega arith) in
      (
        m',
        e ∙ take_key-next c (read_stdin fuel (suc n)) (read_stdin fuel n) m1 h.0 h.1 h.2 rest,
        t',
      )

  -- The call of a process goes by its descriptor.
  pub sys_read-read_from :
      (fuel fd count : ℕ) (m : Machine H W) (p : Pcb)
      → Runs m p
      → fd < max_fd
      → sys_read fuel fd count m ≡ read_from fuel (to_int (get_or p.file_descriptors fd 0)) count m
  unfolding sys_read
  sys_read-read_from fuel fd count m p r valid =
      let in_table : leb max_fd fd ≡ false = ground arith in rw (r.valid, r.there, in_table) refl

  read_chars_line :
      (line more : List ℕ) (fuel count i v : ℕ) (m : Machine H W)
      → Typed m (line ++ 10 ∷ more) i v
      → AreInLine line
      → length line < count
      → count < 2 ^ 31
      → length line < fuel
      → (m' : Machine H W) × (read_chars fuel 0 count m ≡ done (line ++ 10 ∷ []) m')
        × Typed m' more i v
  unfolding read_chars
  read_chars_line line more fuel count i v m t h room small enough =
      let counts : lt_int 0 count ≡ true = ground arith in
      let (m', e, t') = read_stdin_line line more fuel count i v m t h room enough in
      (m', rw counts e, t')

  read_from_stdin :
      (fuel count : ℕ) (m : Machine H W) {cs : List ℕ} {m' : Machine H W}
      → read_chars fuel 0 (to_int count) m ≡ done cs m'
      → read_from fuel 0 count m ≡ done (length cs, cs) m'
  unfolding read_from and_then
  read_from_stdin fuel count m e = rw (e, and_then) refl

  -- A process whose descriptor is the keyboard reads the next line that waits there, a line without
  -- NUL and Ctrl+D, with its end, where the buffer has room for it. Each character that waits has
  -- its permit, and no process waits for the keyboard. The later characters still wait.
  pub sys_read_line :
      (line more : List ℕ) (fuel fd count i v : ℕ) (m : Machine H W) (p : Pcb)
      → Runs m p
      → fd < max_fd
      → get_or p.file_descriptors fd 0 ≡ 0
      → Typed m (line ++ 10 ∷ more) i v
      → AreInLine line
      → length line < count
      → count < 2 ^ 31
      → length line < fuel
      → (m' : Machine H W) × (sys_read fuel fd count m ≡ done (length line + 1, line ++ 10 ∷ []) m')
        × Typed m' more i v
  sys_read_line line more fuel fd count i v m p r valid stdin t h room small enough =
      let (m', e, t') = read_chars_line line more fuel count i v m t h room small enough in
      let descriptor : to_int (get_or p.file_descriptors fd 0) ≡ 0 = ap to_int stdin in
      let same : to_int count ≡ count = omega arith in
      let size : length (line ++ 10 ∷ []) ≡ length line + 1 = length-append line (10 ∷ []) in
      (
        m',
        sys_read-read_from fuel fd count m p r valid
            ∙ (λ j. read_from fuel (descriptor j) count m)
            ∙ read_from_stdin fuel count m (ap (λ c. read_chars fuel 0 c m) same ∙ e)
            ∙ ap (λ n. done (n, line ++ 10 ∷ []) m') size,
        t',
      )
