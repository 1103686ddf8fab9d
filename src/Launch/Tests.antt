-- ===== src/Launch/Tests.antt =====
-- The shell over a world that keeps a record of the calls.
use tp2_so_2025q.Base.{ℕ, ◌<◌, ◌≡◌, refl, true, some, List, [], ◌∷◌, ◌++◌, arith, length, replicate}
use tp2_so_2025q.Text.{codes, strcmp}
use tp2_so_2025q.Shell.Words.{words}
use tp2_so_2025q.Text.Compare.{c_string}
use tp2_so_2025q.Launch.{
  find_command_rip, Rip, exit_mark, entry, Calls, Shell, is_none, process_command, process_key,
  buffer_size,
}
use tp2_so_2025q.Launch.Laws.{before, after, run_sides, process_command-words}
use tp2_so_2025q.Launch.Keys.{edit, ended, type_keys, enter-edit}

data Event : Type 0 where
  wrote : List ℕ → Event
  moved : Event
  left : Event
  created : Rip → List ℕ → List (List ℕ) → Event
  piped : Rip → List ℕ → List (List ℕ) → ℕ × ℕ → Event
  in_front : ℕ → Event
  waited : ℕ → ℕ → Event
  yielded : Event
  opened : Event
  closed : ℕ → ℕ → Event

-- Process 7 is created, the shell is process 2, and a pipe is 0 for both ends.
abbrev recording : Calls (List Event)
recording = record {
  write_out = λ t w. w ++ wrote t ∷ [];
  line_start = λ w. w ++ moved ∷ [];
  erase = λ w. w ++ moved ∷ [];
  exit_shell = λ w. w ++ left ∷ [];
  create_process = λ r n a w. (7, w ++ created r n a ∷ []);
  create_process_piped = λ r n a ends w. (7, w ++ piped r n a ends ∷ []);
  update_foreground = λ pid w. w ++ in_front pid ∷ [];
  get_pid = λ w. 2;
  wait = λ pid me w. w ++ waited pid me ∷ [];
  yield = λ w. w ++ yielded ∷ [];
  pipe_create_anonymous = λ w. (some (3, 4), w ++ opened ∷ []);
  pipe_close = λ id end w. w ++ closed id end ∷ [];
}

abbrev started : Shell (List Event)
started = record {
  foreground = true;
  current_foreground_pid = 2;
  shell_pid = 2;
  command_buffer = replicate buffer_size 0;
  command_cursor = 0;
  world = [];
}

in_foreground :
    (process_command recording (codes "  kill  5 ") started).world
    ≡ created (entry 11) (codes "kill") (codes "5" ∷ []) ∷ in_front 7 ∷ waited 7 2 ∷ []
unfolding process_command find_command_rip strcmp
in_foreground = refl

in_background :
    (process_command recording (codes "loop 3&") started).world
    ≡ created (entry 16) (codes "loop") (codes "3" ∷ []) ∷ []
unfolding process_command find_command_rip strcmp
in_background = refl

through_a_pipe :
    (process_command recording (codes "cat|wc") started).world
    ≡ opened
      ∷ piped (entry 18) (codes "cat") [] (0, 4)
      ∷ piped (entry 17) (codes "wc") [] (3, 1)
      ∷ closed 3 0
      ∷ closed 4 1
      ∷ waited 7 2
      ∷ waited 7 2
      ∷ []
unfolding process_command find_command_rip strcmp
through_a_pipe = refl

-- The mark of `exit` is run as if it were a function.
exit_through_a_pipe :
    (process_command recording (codes "exit|wc&") started).world
    ≡ opened
      ∷ piped exit_mark (codes "exit") [] (0, 4)
      ∷ piped (entry 17) (codes "wc") [] (3, 1)
      ∷ closed 3 0
      ∷ closed 4 1
      ∷ []
unfolding process_command find_command_rip strcmp
exit_through_a_pipe = refl

process_command-words_example :
    process_command recording (codes "cat a|wc &") started
    ≡ run_sides recording
        (before 124 (before 38 (c_string (codes "cat a|wc &"))))
        (after 124 (before 38 (c_string (codes "cat a|wc &"))))
        (record started { foreground = is_none (after 38 (c_string (codes "cat a|wc &"))) })
unfolding words
process_command-words_example =
    process_command-words recording (codes "cat a|wc &") started (omega arith) (omega arith)

enter-edit_example :
    (buffer : List ℕ) × (process_key recording 10
        (type_keys recording (112 ∷ 8 ∷ 109 ∷ 101 ∷ 109 ∷ []) started)
      ≡ ended recording (
          process_command recording buffer
            (record (type_keys recording (112 ∷ 8 ∷ 109 ∷ 101 ∷ 109 ∷ []) started) {
              command_buffer = buffer;
              world =
                  recording.write_out
                    (codes "\n")
                    (type_keys recording (112 ∷ 8 ∷ 109 ∷ 101 ∷ 109 ∷ []) started).world;
            })))
    × (c_string buffer ≡ edit [] (112 ∷ 8 ∷ 109 ∷ 101 ∷ 109 ∷ []))
    × (length (edit [] (112 ∷ 8 ∷ 109 ∷ 101 ∷ 109 ∷ [])) < buffer_size)
enter-edit_example =
    enter-edit recording (112 ∷ 8 ∷ 109 ∷ 101 ∷ 109 ∷ []) started refl refl (omega arith)
