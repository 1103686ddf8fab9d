-- ===== src/Lifecycle/Create.antt =====
-- `create_process` of Kernel/proc.c. What the copies and `_create_stack` write into the new memory is not
-- part of the state; the stack pointer and the addresses are.
use tp2_so_2025q.Base.{
  ℕ, zero, suc, ◌+◌, ◌-◌, ◌*◌, Bool, true, false, not, ◌||◌, Option, none, some, List, [], ◌∷◌,
  ◌++◌, ltb, leb, ◌==◌, if◌then◌else◌, set, replicate, add32, add64, sub64, neg, is_negative,
  lt_int, sign_extend, to_int,
}
use tp2_so_2025q.Text.{codes, strcmp, strlen}
use tp2_so_2025q.System.{Kernel, pcb_at, put_pcb}
use tp2_so_2025q.System.Process.{
  State, Priority, Pcb, is_zombie, max_pcs, max_fd, max_stack_size, process_name_max_length,
  quantum, idle_q,
}
use tp2_so_2025q.System.Run.{done, fault, Op, ◌>>=◌, ◌>>◌, pure}
use tp2_so_2025q.Table.{get_pid}
use tp2_so_2025q.Scheduler.{idle_name, yield}
use tp2_so_2025q.Pipes.{pipe_read_end, pipe_write_end}
use tp2_so_2025q.Pipes.Transfer.{pipe_register}
use tp2_so_2025q.Lifecycle.{
  Manager, sizeof_pcb, change_pcb, set_slot, count_active, alloc_op, free_op, free_each,
  free_process,
}

-- The first slot that is NULL or holds a zombie; `i` is the index of the list's head.
unfoldable pub open_slot : List (Option Pcb) → ℕ → Option ℕ
open_slot [] i = none
open_slot (none ∷ t) i = some i
open_slot (some p ∷ t) i =
    let rest = open_slot t (suc i) in if is_zombie p.state then some i else rest

-- `n` bytes of a string, and NULs behind its end.
unfoldable pub first_bytes : ℕ → List ℕ → List ℕ
first_bytes zero name = []
first_bytes (suc n) [] = 0 ∷ first_bytes n []
first_bytes (suc n) (c ∷ name) = c ∷ first_bytes n name

-- What `memset` leaves of a block at an address.
abbrev pub zero_pcb : ℕ → Pcb
zero_pcb address = record {
  address = address;
  name = replicate process_name_max_length 0;
  pid = 0;
  parent_pid = 0;
  state = State.ready;
  file_descriptors = replicate max_fd 0;
  rsp = 0;
  stack_base = 0;
  argv = none;
  my_prio = Priority.level_0;
  time_used = 0;
  my_max_time = 0;
  total_ticks = 0;
  changes = 0;
  yield_changes = 0;
  child_amount = 0;
  childs = replicate max_pcs 0;
  blocks_amount = 0;
  dad_blocked = false;
  yielding = false;
}

-- The stack pointer after the twenty words that `_create_stack` pushes.
unfoldable pub create_stack : ℕ → ℕ
create_stack rsp = sub64 rsp (20 * 8)

-- The time, the level and the first state of a new process.
unfoldable pub start_class : List ℕ → Pcb → Pcb
start_class name p =
    if strcmp name idle_name == 0
    then (record p { my_max_time = idle_q; my_prio = Priority.level_idle; state = State.blocked })
    else (record p { my_max_time = quantum; my_prio = Priority.level_4; state = State.ready })

-- The block of process `i` with its name, its stack and its parent.
unfoldable pub fill_pcb : ℕ → List ℕ → ℕ → ℕ → Option (ℕ × List ℕ) → Pcb → Pcb
unfolding start_class first_bytes create_stack
fill_pcb i name parent stack_base argv p = start_class name (record p {
  stack_base = stack_base;
  argv = argv;
  rsp = create_stack (add64 stack_base max_stack_size);
  name = first_bytes (process_name_max_length - 1) name ++ 0 ∷ [];
  pid = i;
  parent_pid = sign_extend parent;
  time_used = 0;
  child_amount = 0;
  childs = replicate max_pcs (neg 1);
})

-- The list of children with `-1` at its first place replaced.
unfoldable pub add_child : ℕ → List ℕ → Option (List ℕ)
add_child pid [] = none
add_child pid (c ∷ cs) =
    let rest = add_child pid cs in
    if c == neg 1 then some (pid ∷ cs) else elim rest [ none ↦ none | some cs' ↦ some (c ∷ cs') ]

unfoldable pub adopt : ℕ → Pcb → Pcb
unfolding add_child
adopt pid p = elim (add_child pid p.childs) [
  | none ↦ p
  | some cs ↦ record p { childs = cs; child_amount = add32 p.child_amount 1 }
]

-- The streams of a process: the standard ones, or the two that the caller gives. The third follows.
unfoldable pub streams : Option (ℕ × ℕ) → List ℕ
streams none = 0 ∷ 1 ∷ 2 ∷ replicate (max_fd - 3) 0
streams (some (input, output)) = input ∷ output ∷ replicate (max_fd - 2) 0

module _ {H : Type 0} where
  -- The parent, where it is in the table, gets a new child.
  unfoldable pub join_parent : ℕ → ℕ → Op (Kernel H) (Unit {0})
  unfolding adopt
  join_parent parent i k = elim (pcb_at k parent) [
    | none ↦ done tt k
    | some p ↦
        if is_negative parent || leb max_pcs parent
        then done tt k
        else done tt (put_pcb k parent (some (adopt i p)))
  ]

  unfoldable pub open_streams : Option (ℕ × ℕ) → Op (Kernel H) (Unit {0})
  open_streams none = pure tt
  open_streams (some (input, output)) = do
    _ ← if ltb 2 input then pipe_register (to_int input) pipe_read_end else pure 0
    _ ← if ltb 2 output then pipe_register (to_int output) pipe_write_end else pure 0
    pure tt

  -- From the filled block on: the parent, the streams and, for the process named "wait", the CPU.
  unfoldable pub launch : ℕ → List ℕ → ℕ → Option (ℕ × ℕ) → Op (Kernel H) ℕ
  unfolding join_parent change_pcb streams open_streams count_active
  launch i name parent fds = do
    join_parent parent i
    change_pcb i (λ p. record p { blocks_amount = 0; file_descriptors = streams fds })
    open_streams fds
    change_pcb i (λ p. record p {
      file_descriptors = set p.file_descriptors 2 2;
      yielding = false;
      total_ticks = 0;
      changes = 0;
      yield_changes = 0;
      dad_blocked = false;
    })
    count_active 1
    if strcmp name (codes "wait") == 0 then (do yield; pure i) else pure i

module _ {H : Type 0} (m : Manager H) where
  -- The slot is emptied first where it holds a zombie.
  unfoldable pub reclaim : ℕ → Op (Kernel H) (Unit {0})
  unfolding free_process
  reclaim i k = elim (pcb_at k i) [
    | none ↦ done tt k
    | some p ↦ (do free_process m p; set_slot i none) k
  ]

  -- The loop over `argv` with the rounds left, and the addresses of the copies so far. The flag says
  -- that memory lasted.
  unfoldable pub copy_strings : ℕ → List (List ℕ) → List ℕ → Op (Kernel H) (Bool × List ℕ)
  unfolding alloc_op
  copy_strings zero argv copies = pure (true, copies)
  copy_strings (suc r) [] copies = λ k. fault
  copy_strings (suc r) (s ∷ argv) copies = do
    a ← alloc_op m (suc (strlen s))
    if a == 0 then pure (false, copies) else copy_strings r argv (copies ++ a ∷ [])

  -- The copied argument array, `some none` for no arguments; `none` where memory did not last, with
  -- the copies released.
  unfoldable pub copy_argv :
      ℕ → Option (List (List ℕ)) → Op (Kernel H) (Option (Option (ℕ × List ℕ)))
  unfolding alloc_op free_op free_each copy_strings
  copy_argv argc none = pure (some none)
  copy_argv argc (some argv) = if not (lt_int 0 argc) then pure (some none) else (do
    array ← alloc_op m (8 * (argc + 1))
    if array == 0 then pure none else (do
      copied ← copy_strings argc argv []
      if copied.0
          then pure (some (some (array, copied.1)))
          else (do free_each m copied.1; free_op m array; pure none)))

  -- With the block and the stack at hand.
  unfoldable pub build :
      ℕ → List ℕ → ℕ → Option (List (List ℕ)) → Option (ℕ × ℕ) → ℕ → ℕ → Op (Kernel H) ℕ
  unfolding copy_argv free_op change_pcb fill_pcb launch
  build i name argc argv fds block stack_base = do
    copied ← copy_argv argc argv
    elim copied [
      | none ↦ (do free_op m stack_base; free_op m block; set_slot i none; pure (neg 2))
      | some array ↦ (λ k.
          (do
            change_pcb i (fill_pcb i name (get_pid k) stack_base array)
            launch i name (get_pid k) fds)
            k)
    ]

  unfoldable pub create_in :
      ℕ → List ℕ → ℕ → Option (List (List ℕ)) → Option (ℕ × ℕ) → Op (Kernel H) ℕ
  unfolding reclaim alloc_op free_op build
  create_in i name argc argv fds = do
    reclaim i
    block ← alloc_op m sizeof_pcb
    if block == 0 then pure (neg 2) else (do
      set_slot i (some (zero_pcb block))
      stack_base ← alloc_op m max_stack_size
      if stack_base == 0
          then (do free_op m block; set_slot i none; pure (neg 2))
          else build i name argc argv fds block stack_base)

  -- The entry point `rip` goes to the new stack only.
  unfoldable pub create_process :
      ℕ → List ℕ → ℕ → Option (List (List ℕ)) → Option (ℕ × ℕ) → Op (Kernel H) ℕ
  unfolding open_slot create_in
  create_process rip name argc argv fds k = elim (open_slot k.process_table 0) [
    | none ↦ done (neg 1) k
    | some i ↦ create_in i name argc argv fds k
  ]
