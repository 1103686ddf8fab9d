-- ===== src/Launch.antt =====
-- Userland/userCodeModule/shell.c: what the shell does with a key and with a line. The calls of the
-- kernel and of the screen are those of an interface, over whatever state they keep.
pub mod Laws
pub mod Keys
mod Tests
use tp2_so_2025q.Base.{
  ℕ, zero, suc, ◌-◌, Bool, true, false, not, ◌&&◌, ◌||◌, Option, none, some, List, [], ◌∷◌, map,
  ◌==◌, if◌then◌else◌, set, drop, replicate, is_negative,
}
use tp2_so_2025q.Text.{codes, strcmp, strlen}
use tp2_so_2025q.Shell.{strchr, cut_at, split_command}

abbrev pub buffer_size : ℕ
buffer_size = 128

-- NULL, the mark of `exit`, or the function at a place of `command_rips`.
pub data Rip : Type 0 where
  missing : Rip
  exit_mark : Rip
  entry : ℕ → Rip

abbrev pub commands : List (List ℕ)
commands =
    codes "exit"
    ∷ codes "clear"
    ∷ codes "sleep"
    ∷ codes "help"
    ∷ codes "registers"
    ∷ codes "test-mm"
    ∷ codes "test-prio"
    ∷ codes "test-pcs"
    ∷ codes "test-sync"
    ∷ codes "mem"
    ∷ codes "tests"
    ∷ codes "kill"
    ∷ codes "ps"
    ∷ codes "nice"
    ∷ codes "block"
    ∷ codes "unblock"
    ∷ codes "loop"
    ∷ codes "wc"
    ∷ codes "cat"
    ∷ codes "filter"
    ∷ codes "mvar"
    ∷ codes "msg"
    ∷ []

-- `command_rips[i]`.
unfoldable pub rip_at : ℕ → Rip
rip_at zero = exit_mark
rip_at (suc i) = entry (suc i)

unfoldable pub find_command : ℕ → List (List ℕ) → List ℕ → Rip
unfolding rip_at
find_command i [] name = missing
find_command i (c ∷ cs) name =
    let rest = find_command (suc i) cs name in if strcmp name c == 0 then rip_at i else rest

unfoldable pub find_command_rip : List ℕ → Rip
unfolding find_command
find_command_rip name = find_command 0 commands name

unfoldable pub is_missing : Rip → Bool
is_missing missing = true
is_missing exit_mark = false
is_missing (entry i) = false

unfoldable pub is_none {ℓ} : {A : Type ℓ} → Option A → Bool
is_none none = true
is_none (some a) = false

-- What the shell calls.
pub record Calls (S : Type 0) : Type 0 where
  pub write_out : List ℕ → S → S
  pub line_start : S → S
  pub erase : S → S
  pub exit_shell : S → S
  pub create_process : Rip → List ℕ → List (List ℕ) → S → ℕ × S
  pub create_process_piped : Rip → List ℕ → List (List ℕ) → ℕ × ℕ → S → ℕ × S
  pub update_foreground : ℕ → S → S
  pub get_pid : S → ℕ
  pub wait : ℕ → ℕ → S → S
  pub yield : S → S
  pub pipe_create_anonymous : S → Option (ℕ × ℕ) × S
  pub pipe_close : ℕ → ℕ → S → S

pub record Shell (S : Type 0) : Type 0 where
  pub foreground : Bool
  pub current_foreground_pid : ℕ
  pub shell_pid : ℕ
  pub command_buffer : List ℕ
  pub command_cursor : ℕ
  pub world : S

module _ {S : Type 0} (calls : Calls S) where
  open calls use {
    write_out, line_start, erase, exit_shell, create_process, create_process_piped,
    update_foreground, get_pid, wait, yield, pipe_create_anonymous, pipe_close,
  }

  -- Behind `create_process`: the shell waits for a process in the foreground.
  unfoldable pub wait_for : ℕ → Shell S → Shell S
  wait_for pid sh =
      if sh.foreground && not (pid == 0) && not (is_negative pid)
      then (let w = update_foreground pid sh.world in
          record sh { current_foreground_pid = sh.shell_pid; world = wait pid (get_pid w) w })
      else sh

  unfoldable pub unknown : List ℕ → Shell S → Shell S
  unknown name sh = record sh {
    foreground = true;
    world =
        if suc (strlen name) == buffer_size
        then write_out (codes "Buenas... una poesia?\n") sh.world
        else write_out (codes "\n")
            (write_out name (write_out (codes "Comando desconocido: ") (line_start sh.world)));
  }

  -- A command without a pipe, behind the split of its line.
  unfoldable pub run_single : List ℕ × List (List ℕ) → Shell S → Shell S
  unfolding wait_for unknown
  run_single ([], args) sh = sh
  run_single (c ∷ name, args) sh = elim (find_command_rip (c ∷ name)) [
    | missing ↦ unknown (c ∷ name) sh
    | exit_mark ↦ record sh { world = exit_shell sh.world }
    | entry i ↦
        let (pid, w) = create_process (entry i) (c ∷ name) args sh.world in
        wait_for pid (record sh { world = w })
  ]

  -- Two processes at the ends of a pipe. The shell closes its own ends, and waits in the foreground.
  unfoldable pub join_pipe :
      Rip → Rip → List ℕ × List (List ℕ) → List ℕ × List (List ℕ) → Bool → ℕ × ℕ → S → S
  join_pipe rip_a rip_b (name_a, args_a) (name_b, args_b) fg (read_id, write_id) w =
      let (pid_a, w1) = create_process_piped rip_a name_a args_a (0, write_id) w in
      let (pid_b, w2) = create_process_piped rip_b name_b args_b (read_id, 1) w1 in
      let w3 = pipe_close write_id 1 (pipe_close read_id 0 w2) in
      if fg then wait pid_b (get_pid w3) (wait pid_a (get_pid w3) w3) else w3

  unfoldable pub with_ends :
      Rip → Rip → List ℕ × List (List ℕ) → List ℕ × List (List ℕ) → Bool → Option (ℕ × ℕ) × S → S
  unfolding join_pipe
  with_ends rip_a rip_b a b fg (none, w) = write_out (codes "Error: no se pudo crear el pipe.\n") w
  with_ends rip_a rip_b a b fg (some ends, w) = join_pipe rip_a rip_b a b fg ends w

  -- `handle_pipe_command` behind the split of both commands.
  unfoldable pub run_pipe : List ℕ × List (List ℕ) → List ℕ × List (List ℕ) → Shell S → Shell S
  unfolding with_ends is_missing
  run_pipe a b sh =
      let rip_a = find_command_rip a.0 in
      let rip_b = find_command_rip b.0 in
      let w =
        if is_missing rip_a || is_missing rip_b
        then write_out (codes "Error: comando invalido en el pipe.\n") sh.world
        else with_ends rip_a rip_b a b sh.foreground (pipe_create_anonymous sh.world) in
      record sh { world = w }

  -- A line behind the search for `|`: the left side ends at it.
  unfoldable pub run_parts : List ℕ → Option ℕ → Shell S → Shell S
  unfolding run_single run_pipe split_command
  run_parts buffer none sh = run_single (split_command buffer) sh
  run_parts buffer (some p) sh =
      run_pipe (split_command (set buffer p 0)) (split_command (drop (suc p) buffer)) sh

  unfoldable pub process_command : List ℕ → Shell S → Shell S
  unfolding run_parts cut_at strchr is_none
  process_command buffer sh =
      let bg_pos = strchr buffer 38 in
      let cut = cut_at buffer bg_pos in
      run_parts cut (strchr cut 124) (record sh { foreground = is_none bg_pos })

  -- The end of a line: the prompt, after a yield where the command runs in the background.
  unfoldable pub end_line : Shell S → Shell S
  end_line sh = record sh {
    command_buffer = replicate buffer_size 0;
    command_cursor = 0;
    world = write_out (127 ∷ []) (if not sh.foreground then yield sh.world else sh.world);
  }

  unfoldable pub process_key : ℕ → Shell S → Shell S
  unfolding process_command end_line
  process_key key sh =
      if key == 10
      then (let buffer = set sh.command_buffer sh.command_cursor 0 in
          end_line (
            process_command buffer
              (record sh { command_buffer = buffer; world = write_out (codes "\n") sh.world })))
      else if key == 8
      then if sh.command_cursor == 0
        then sh
        else record sh { command_cursor = sh.command_cursor - 1; world = erase sh.world }
      else if sh.command_cursor == buffer_size - 1
      then sh
      else record sh {
        command_buffer = set sh.command_buffer sh.command_cursor key;
        command_cursor = suc sh.command_cursor;
        world = write_out (key ∷ []) sh.world;
      }
