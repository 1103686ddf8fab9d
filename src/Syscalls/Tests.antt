-- ===== src/Syscalls/Tests.antt =====
-- The shell writes to a pipe, the job reads from it; and the shell reads a line of the keyboard.
use tp2_so_2025q.Base.{
  ℕ, ◌-◌, ◌≡◌, refl, true, false, none, some, List, [], ◌∷◌, ◌++◌, arith, length, replicate,
}
use tp2_so_2025q.Text.{codes, strcmp}
use tp2_so_2025q.System.{Semaphore, Pipe}
use tp2_so_2025q.System.Process.{State}
use tp2_so_2025q.System.Run.{done, and_then}
use tp2_so_2025q.System.Sample.{kernel, lock, shell, job, idle}
use tp2_so_2025q.Table.{get_pid, is_pid_valid}
use tp2_so_2025q.Semaphore.{slot, find_sem}
use tp2_so_2025q.Pipes.Permits.{Permits}
use tp2_so_2025q.Pipes.Ring.{contents}
use tp2_so_2025q.Pipes.Held.{Holds}
use tp2_so_2025q.Keyboard.{Keyboard, next_index}
use tp2_so_2025q.Syscalls.{Video, Machine, sys_read, sys_write}
use tp2_so_2025q.Syscalls.Waiting
use tp2_so_2025q.Syscalls.Waiting.{behind}
use tp2_so_2025q.Syscalls.Line.{Runs, Typed, sys_read_line}
use tp2_so_2025q.Syscalls.Redirect.{Redirects, sys_read-sys_write}

abbrev showing : Video (List (List ℕ))
showing = record { print_cant = λ t w. t ∷ w; print_color_cant = λ t a b w. t ∷ w }

-- h, i, new line and a later x, from entry 14 on.
abbrev typed : Keyboard
typed = record {
  key_buf = replicate 16 0;
  insert_index = 0;
  read_index = 0;
  to_read = false;
  ascii_buf = 10 ∷ 120 ∷ replicate 12 0 ++ 104 ∷ 105 ∷ [];
  shifted = false;
  caps = false;
  control = false;
  saved = false;
  ascii_insert_index = 2;
  ascii_read_index = 14;
  ascii_to_read = true;
  foreground_pid = 1;
}

abbrev sem : List ℕ → ℕ → Semaphore
sem name value = record lock { name = name; value = value }

abbrev pipe : Pipe
pipe = record {
  is_named = false;
  name = [];
  ref_count = 2;
  write_open_count = 1;
  read_open_count = 1;
  eof_signaled = false;
  buffer = replicate 1024 0;
  read_index = 0;
  write_index = 0;
  sem_pipe_lock_name = codes "a";
  sem_items_available_name = codes "b";
  sem_empty_space_available_name = codes "c";
  is_in_use = true;
}

abbrev writing : Machine (Unit {0}) (List (List ℕ))
writing = record {
  keyboard = typed;
  kernel = record (kernel lock) {
    process_table =
        some idle
        ∷ some (record shell { file_descriptors = 0 ∷ 3 ∷ replicate 126 0 })
        ∷ some job
        ∷ replicate 61 none;
    semaphores =
        sem (codes "a") 1
        ∷ sem (codes "b") 0
        ∷ sem (codes "c") 1024
        ∷ sem (codes "sem_stdin") 5
        ∷ [];
    global_pipe_table = replicate 4 pipe;
  };
  shown = [];
}

-- The job runs, and its input is the pipe.
abbrev to_job : Machine (Unit {0}) (List (List ℕ)) → Machine (Unit {0}) (List (List ℕ))
to_job m = record m {
  kernel = record m.kernel {
    process_table =
        some idle
        ∷ some (record shell { state = State.ready })
        ∷ some (record job { state = State.running; file_descriptors = 3 ∷ 1 ∷ replicate 126 0 })
        ∷ replicate 61 none;
  };
}

to_job-Permits :
    (m : Machine (Unit {0}) (List (List ℕ))) (name : List ℕ) (i v : ℕ)
    → Permits m.kernel name i v
    → Permits (to_job m).kernel name i v
unfolding find_sem
to_job-Permits m name i v p = record {
  sem = p.sem;
  found = p.found;
  there = p.there;
  value = p.value;
  unlocked = p.unlocked;
  alone = p.alone;
}

to_job-Holds :
    (bs : List ℕ) (m : Machine (Unit {0}) (List (List ℕ)))
    → Holds 3 0 1 2 bs m.kernel
    → Holds 3 0 1 2 bs (to_job m).kernel
to_job-Holds bs m h = record {
  pipe = h.pipe;
  at = h.at;
  used = h.used;
  ring = h.ring;
  bytes = h.bytes;
  sems = record {
    lock = to_job-Permits m h.pipe.sem_pipe_lock_name 0 1 h.sems.lock;
    items = to_job-Permits m h.pipe.sem_items_available_name 1 (length bs) h.sems.items;
    space =
        to_job-Permits m h.pipe.sem_empty_space_available_name 2 (1024 - length bs) h.sems.space;
    lock_items = h.sems.lock_items;
    lock_space = h.sems.lock_space;
    items_space = h.sems.items_space;
  };
}

to_job-Redirects : (m : Machine (Unit {0}) (List (List ℕ))) → Redirects (to_job m) 0 3
unfolding get_pid is_pid_valid
to_job-Redirects m = record {
  process = record job { state = State.running; file_descriptors = 3 ∷ 1 ∷ replicate 126 0 };
  running = record { valid = refl; there = refl };
  in_table = omega arith;
  descriptor = refl;
}

writing-Redirects : Redirects writing 1 3
unfolding get_pid is_pid_valid
writing-Redirects = record {
  process = record shell { file_descriptors = 0 ∷ 3 ∷ replicate 126 0 };
  running = record { valid = refl; there = refl };
  in_table = omega arith;
  descriptor = refl;
}

waiting_for :
    (name : List ℕ) (i v : ℕ)
    → find_sem name writing.kernel ≡ some i
    → slot writing.kernel.semaphores i ≡ some (sem name v)
    → Permits writing.kernel name i v
waiting_for name i v found there = record {
  sem = sem name v;
  found = found;
  there = there;
  value = refl;
  unlocked = refl;
  alone = refl;
}

empty-Holds : Holds 3 0 1 2 [] writing.kernel
unfolding contents find_sem strcmp
empty-Holds = record {
  pipe = pipe;
  at = refl;
  used = refl;
  ring = record { size = refl; read = omega arith; room = omega arith; write = refl };
  bytes = refl;
  sems = record {
    lock = waiting_for (codes "a") 0 1 refl refl;
    items = waiting_for (codes "b") 1 0 refl refl;
    space = waiting_for (codes "c") 2 1024 refl refl;
    lock_items = λ e. omega arith;
    lock_space = λ e. omega arith;
    items_space = λ e. omega arith;
  };
}

sys_read-sys_write_example :
    (m : Machine (Unit {0}) (List (List ℕ))) × (and_then
        (sys_write showing 1 (codes "data") 4 writing)
        (λ _ m'. sys_read 0 0 4 (to_job m'))
      ≡ done (4, codes "data") m)
    × Holds 3 0 1 2 [] m.kernel
sys_read-sys_write_example =
    sys_read-sys_write showing (codes "data") 0 1 0 3 0 1 2 to_job writing writing-Redirects
      empty-Holds (omega arith) (omega arith) (omega arith) (omega arith)
      (λ m h. (to_job-Holds (codes "data") m h, to_job-Redirects m))

-- The shell's own input is the keyboard.
line-Typed : Typed writing (codes "hi" ++ 10 ∷ 120 ∷ []) 3 1
unfolding Waiting.contents behind next_index find_sem strcmp
line-Typed = record {
  keys = record { start = omega arith; room = omega arith; bytes = refl; stop = refl; flag = refl };
  permits = waiting_for (codes "sem_stdin") 3 5 refl refl;
  small = omega arith;
}

writing-Runs : Runs writing (record shell { file_descriptors = 0 ∷ 3 ∷ replicate 126 0 })
unfolding get_pid is_pid_valid
writing-Runs = record { valid = refl; there = refl }

sys_read_line_example :
    (m : Machine (Unit {0}) (List (List ℕ))) × (sys_read 20 0 64 writing
      ≡ done (3, codes "hi" ++ 10 ∷ []) m)
    × Typed m (120 ∷ []) 3 1
sys_read_line_example =
    sys_read_line (codes "hi") (120 ∷ []) 20 0 64 3 1 writing
      (record shell { file_descriptors = 0 ∷ 3 ∷ replicate 126 0 }) writing-Runs (omega arith) refl
      line-Typed (omega arith) (omega arith) (omega arith) (omega arith)
