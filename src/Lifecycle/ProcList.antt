-- ===== src/Lifecycle/ProcList.antt =====
-- `get_proc_list` of Kernel/proc.c. The list stands in memory that `alloc` gives, so an entry keeps
-- what stood there where nothing is written.
use tp2_so_2025q.Base.{
  ℕ, suc, ◌-◌, ◌*◌, ◌^◌, not, Option, none, some, List, [], ◌∷◌, ◌++◌, ◌==◌, if◌then◌else◌, set,
  take,
}
use tp2_so_2025q.Text.{codes, strncpy}
use tp2_so_2025q.System.{Kernel}
use tp2_so_2025q.System.Process.{State, Priority, Pcb, max_pcs, process_name_max_length}
use tp2_so_2025q.System.Run.{done, fault, Op, ◌>>=◌, pure}
use tp2_so_2025q.Lifecycle.{Manager, alloc_op}

abbrev pub info_str_length : ℕ
info_str_length = 16

abbrev pub sizeof_process_info : ℕ
sizeof_process_info = 1384

pub record ProcessInfo : Type 0 where
  pub name : List ℕ
  pub pid : ℕ
  pub parent_pid : ℕ
  pub state : List ℕ
  pub rsp : ℕ
  pub my_prio : List ℕ
  pub child_amount : ℕ
  pub children : List ℕ
  pub file_descriptors : List ℕ
  pub fds_count : ℕ

unfoldable pub state_name : State → List ℕ
state_name State.running = codes "RUNNING"
state_name State.blocked = codes "BLOCKED"
state_name State.ready = codes "READY"
state_name State.zombie = codes "ZOMBIE"
state_name State.invalid = codes "UNKNOWN"

unfoldable pub priority_name : Priority → List ℕ
priority_name Priority.level_0 = codes "LEVEL_0"
priority_name Priority.level_1 = codes "LEVEL_1"
priority_name Priority.level_2 = codes "LEVEL_2"
priority_name Priority.level_3 = codes "LEVEL_3"
priority_name Priority.level_4 = codes "LEVEL_4"
priority_name Priority.level_idle = codes "LEVEL_IDLE"
priority_name (Priority.unknown n) = codes "UNKNOWN"

unfoldable pub count_open : List ℕ → ℕ
count_open [] = 0
count_open (fd ∷ fds) = let rest = count_open fds in if not (fd == 0) then suc rest else rest

-- A name copied into its field, with a NUL in the last place.
unfoldable pub put_name : List ℕ → List ℕ → Option (List ℕ)
put_name field name = elim (strncpy field name info_str_length) [
  | none ↦ none
  | some text ↦ some (set text (info_str_length - 1) 0)
]

-- The entry of a process.
unfoldable pub describe : Pcb → ProcessInfo → Option ProcessInfo
unfolding state_name priority_name count_open put_name
describe p info = elim (put_name info.state (state_name p.state)) [
  | none ↦ none
  | some state ↦ elim (put_name info.my_prio (priority_name p.my_prio)) [
    | none ↦ none
    | some my_prio ↦ some (record {
      name = take (process_name_max_length - 1) p.name ++ 0 ∷ [];
      pid = p.pid;
      parent_pid = p.parent_pid;
      state = state;
      rsp = p.rsp;
      my_prio = my_prio;
      child_amount = p.child_amount;
      children = p.childs;
      file_descriptors = p.file_descriptors;
      fds_count = count_open p.file_descriptors;
    })
  ]
]

-- The entry of a place of the table: without a process it has the PID -1 and no state.
unfoldable pub info_of : Option Pcb → ProcessInfo → Option ProcessInfo
unfolding describe
info_of none info = elim (strncpy info.state (codes "INVALID") 15) [
  | none ↦ none
  | some state ↦ some (record info { pid = 2 ^ 64 - 1; state = state })
]
info_of (some p) info = describe p info

-- The loop over the table; `none` is a place of the memory that is missing.
unfoldable pub list_from : List (Option Pcb) → List ProcessInfo → Option (List ProcessInfo)
unfolding info_of
list_from [] old = some []
list_from (p ∷ t) [] = none
list_from (p ∷ t) (info ∷ old) =
    let rest = list_from t old in
    elim (info_of p info) [
      | none ↦ none
      | some entry ↦ elim rest [ none ↦ none | some entries ↦ some (entry ∷ entries) ]
    ]

module _ {H : Type 0} (m : Manager H) where
  unfoldable pub fill_list : ℕ → List ProcessInfo → Op (Kernel H) (ℕ × List ProcessInfo)
  unfolding list_from
  fill_list address old k = elim (list_from k.process_table old) [
    | none ↦ fault
    | some entries ↦ done (address, entries) k
  ]

  -- The address of the list and its entries; address 0 is NULL, without a list. `old` is what an
  -- address holds.
  unfoldable pub get_proc_list : (ℕ → List ProcessInfo) → Op (Kernel H) (ℕ × List ProcessInfo)
  unfolding alloc_op fill_list
  get_proc_list old =
      alloc_op m (sizeof_process_info * max_pcs)
      >>= (λ address. if address == 0 then pure (0, []) else fill_list address (old address))
