-- ===== src/Pipes.antt =====
-- Kernel/pipes.c: pipes, each a ring of bytes with three semaphores. A routine reads the table again
-- after each step that may have given the CPU away. The file's own string functions are those of
-- lib_str.c.
pub mod Create
pub mod Transfer
pub mod Permits
pub mod Ring
pub mod Held
pub mod Queue
pub mod RoundTrip
pub mod Full
mod Tests
use tp2_so_2025q.Base.{
  ℕ, zero, suc, ◌+◌, ◌-◌, ◌*◌, ◌%◌, Bool, true, false, not, ◌&&◌, ◌||◌, Option, none, some, List,
  [], ◌∷◌, leb, ltb, ◌==◌, if◌then◌else◌, length, get_elem?, get_or, set, replicate, add32, sub32,
  neg, is_negative, lt_int,
}
use tp2_so_2025q.Text.{codes, strcmp, strcpy, strlen, strncpy, strcat, strncat}
use tp2_so_2025q.Text.Digits.{itoa}
use tp2_so_2025q.System.{Kernel, Pipe}
use tp2_so_2025q.System.Run.{Run, done, fault, Op, and_then, ◌>>=◌, ◌>>◌, pure}
use tp2_so_2025q.Semaphore.{max_name_length, sem_open_init, sem_wait, sem_post, sem_close}

abbrev pub max_pipes : ℕ
max_pipes = 16

abbrev pub pipe_buffer_size : ℕ
pipe_buffer_size = 1024

abbrev pub max_pipe_name_length : ℕ
max_pipe_name_length = 64

abbrev pub pipe_read_end : ℕ
pipe_read_end = 0

abbrev pub pipe_write_end : ℕ
pipe_write_end = 1

abbrev pub table_lock : List ℕ
table_lock = codes "GLOBAL_PIPE_TABLE_LOCK"

-- The index of the first pipe that is not in use; `i` is the index of the list's head.
unfoldable pub free_pipe : List Pipe → ℕ → Option ℕ
free_pipe [] i = none
free_pipe (p ∷ ps) i = let rest = free_pipe ps (suc i) in if p.is_in_use then rest else some i

unfoldable pub named_pipe : List ℕ → List Pipe → ℕ → Option ℕ
named_pipe name [] i = none
named_pipe name (p ∷ ps) i =
    let rest = named_pipe name ps (suc i) in
    if p.is_in_use && (p.is_named && (strcmp p.name name == 0)) then some i else rest

-- `strncopy(dest, prefix, 31); strncat(dest, base, 32 - strlen(dest) - 1)`.
unfoldable pub sem_name : List ℕ → List ℕ → List ℕ → Option (List ℕ)
sem_name dest prefix base = elim (strncpy dest prefix (max_name_length - 1)) [
  | none ↦ none
  | some start ↦ strncat start base (max_name_length - strlen start - 1)
]

unfoldable pub build_sem_names : List ℕ → Pipe → Option Pipe
unfolding sem_name
build_sem_names base p = elim (sem_name p.sem_pipe_lock_name (codes "p_lock_") base) [
  | none ↦ none
  | some lock ↦ elim (sem_name p.sem_items_available_name (codes "p_items_") base) [
    | none ↦ none
    | some items ↦ elim (sem_name p.sem_empty_space_available_name (codes "p_space_") base) [
      | none ↦ none
      | some space ↦ some (record p {
        sem_pipe_lock_name = lock;
        sem_items_available_name = items;
        sem_empty_space_available_name = space;
      })
    ]
  ]
]

-- The pipe with its name, its ring and the names of its semaphores set.
unfoldable pub fresh_pipe : List ℕ → Bool → Pipe → Option Pipe
unfolding build_sem_names
fresh_pipe name is_named p = elim (strcpy p.name name) [
  | none ↦ none
  | some copy ↦
      build_sem_names name
        (record p { name = copy; is_named = is_named; read_index = 0; write_index = 0 })
]

-- The name of an anonymous pipe: "anon_" and the slot's number, in buffers whose old bytes show only
-- behind the NUL.
unfoldable pub anon_name : ℕ → Option (List ℕ)
unfolding itoa
anon_name slot = elim (strncpy (replicate max_pipe_name_length 0) (codes "anon_") 5) [
  | none ↦ none
  | some start ↦ elim (itoa slot (replicate 10 0) 10) [
    | none ↦ none
    | some number ↦ strcat start number
  ]
]

-- The ring with a byte stored.
unfoldable pub put_byte : ℕ → Pipe → Pipe
put_byte b p = record p {
  buffer = set p.buffer p.write_index b;
  write_index = add32 p.write_index 1 % pipe_buffer_size;
}

-- The ring with a byte taken.
unfoldable pub take_byte : Pipe → Pipe
take_byte p = record p { read_index = add32 p.read_index 1 % pipe_buffer_size }

-- The first `reserved` slots are in use and the others are not.
unfoldable pub mark_pipes : ℕ → List Pipe → List Pipe
mark_pipes reserved [] = []
mark_pipes zero (p ∷ ps) = record p { is_in_use = false } ∷ mark_pipes 0 ps
mark_pipes (suc r) (p ∷ ps) = record p { is_in_use = true } ∷ mark_pipes r ps

module _ {H : Type 0} where
  abbrev pub put_pipe : ℕ → Pipe → Kernel H → Kernel H
  put_pipe id p k = record k { global_pipe_table = set k.global_pipe_table id p }

  -- A step that changes one pipe; an index outside the table is a fault.
  unfoldable pub change_pipe : ℕ → (Pipe → Pipe) → Op (Kernel H) (Unit {0})
  change_pipe id f k = elim (get_elem? k.global_pipe_table id) [
    | none ↦ fault
    | some p ↦ done tt (put_pipe id (f p) k)
  ]

  -- A step that reads one pipe.
  unfoldable pub with_pipe : {A : Type 0} → ℕ → (Pipe → Op (Kernel H) A) → Op (Kernel H) A
  with_pipe id f k = elim (get_elem? k.global_pipe_table id) [ none ↦ fault | some p ↦ f p k ]

  -- The routine between `sem_wait` and `sem_post` of the table's semaphore.
  unfoldable pub locked : Op (Kernel H) ℕ → Op (Kernel H) ℕ
  locked body = do _ ← sem_wait table_lock; r ← body; _ ← sem_post table_lock; pure r
