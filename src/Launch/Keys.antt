-- ===== src/Launch/Keys.antt =====
-- The keys of a line: what the buffer holds when Enter is pressed.
use tp2_so_2025q.Base.{
  ℕ, suc, ◌+◌, ◌-◌, ◌<◌, ◌≡◌, ◌≢◌, refl, ap, ◌∙◌, true, false, not, replicate, List, [], ◌∷◌, ◌++◌,
  inl, inr, Bool-cases, arith, ◌==◌, ==→eq, if◌then◌else◌, length, set, append_assoc, length-append,
  length-set, set-middle,
}
use tp2_so_2025q.Text.Compare.{c_string}
use tp2_so_2025q.Shell.Squeeze.{HasNoNul, c_string-cut}
use tp2_so_2025q.Text.{codes}
use tp2_so_2025q.Launch.{Calls, Shell, buffer_size, process_command, end_line, process_key}

abbrev pub without_last : List ℕ → List ℕ
without_last [] = []
without_last (x ∷ []) = []
without_last (x ∷ y ∷ s) = x ∷ without_last (y ∷ s)

-- The line that a key leaves: Backspace takes the last character, and any other key is added, up to 127.
abbrev pub edit : List ℕ → List ℕ → List ℕ
edit line [] = line
edit line (key ∷ keys) =
    edit
      (if key == 8
        then without_last line
        else if length line == buffer_size - 1
        then line
        else line ++ key ∷ [])
      keys

-- Keys that stand for no Enter and no NUL.
abbrev pub AreKeys : List ℕ → Type 0
AreKeys [] = Unit
AreKeys (key ∷ keys) = (key ≢ 0) × (key ≢ 10) × AreKeys keys

without_last-split : (x : ℕ) (s : List ℕ) → (y : ℕ) × (x ∷ s ≡ without_last (x ∷ s) ++ y ∷ [])
without_last-split x [] = (x, refl)
without_last-split x (y ∷ s) = let (z, e) = without_last-split y s in (z, ap (◌∷◌ x) e)

append-HasNoNul : (s : List ℕ) (key : ℕ) → HasNoNul s → key ≢ 0 → HasNoNul (s ++ key ∷ [])
append-HasNoNul [] key h k = (k, tt)
append-HasNoNul (x ∷ s) key h k = (h.0, append-HasNoNul s key h.1 k)

without_last-HasNoNul : (s : List ℕ) → HasNoNul s → HasNoNul (without_last s)
without_last-HasNoNul [] h = tt
without_last-HasNoNul (x ∷ []) h = tt
without_last-HasNoNul (x ∷ y ∷ s) h = (h.0, without_last-HasNoNul (y ∷ s) h.1)

edit-HasNoNul : (keys line : List ℕ) → HasNoNul line → AreKeys keys → HasNoNul (edit line keys)
edit-HasNoNul [] line h ks = h
edit-HasNoNul (key ∷ keys) line h ks = elim (Bool-cases (key == 8)) [
  | inl b ↦ rw b (edit-HasNoNul keys (without_last line) (without_last-HasNoNul line h) ks.2)
  | inr b ↦ elim (Bool-cases (length line == buffer_size - 1)) [
    | inl full ↦ rw (b, full) (edit-HasNoNul keys line h ks.2)
    | inr room ↦
        rw (b, room) (edit-HasNoNul keys (line ++ key ∷ []) (append-HasNoNul line key h ks.0) ks.2)
  ]
]

module _ {S : Type 0} (calls : Calls S) where
  abbrev pub type_keys : List ℕ → Shell S → Shell S
  type_keys [] sh = sh
  type_keys (key ∷ keys) sh = type_keys keys (process_key calls key sh)

  -- The buffer holds the line up to the cursor; the bytes behind it may be old.
  record Holds (sh : Shell S) (line : List ℕ) : Type 0 where
    rest : List ℕ
    bytes : sh.command_buffer ≡ line ++ rest
    size : length sh.command_buffer ≡ buffer_size
    cursor : sh.command_cursor ≡ length line
    room : length line < buffer_size

  erase-Holds :
      (sh : Shell S) (line : List ℕ)
      → Holds sh line
      → Holds (process_key calls 8 sh) (without_last line)
  unfolding process_key
  erase-Holds sh [] h =
      let start : (sh.command_cursor == 0) ≡ true = ground (arith, h.cursor) in rw start h
  erase-Holds sh (x ∷ line) h =
      let (y, e) = without_last-split x line in
      let size : length (x ∷ line) ≡ length (without_last (x ∷ line)) + 1 =
        ap length e ∙ length-append (without_last (x ∷ line)) (y ∷ []) in
      let more : (sh.command_cursor == 0) ≡ false = ground (arith, h.cursor) in
      rw more (record {
        rest = y ∷ h.rest;
        bytes =
            h.bytes
            ∙ ap (λ (t : List ℕ). t ++ h.rest) e
            ∙ append_assoc (without_last (x ∷ line)) (y ∷ []) h.rest;
        size = h.size;
        cursor = omega (arith, h.cursor, size);
        room = omega (arith, h.room, size);
      })

  -- A character in front of what the buffer holds behind the cursor.
  write-Holds :
      (sh : Shell S) (line rest : List ℕ) (key : ℕ)
      → sh.command_buffer ≡ line ++ rest
      → length sh.command_buffer ≡ buffer_size
      → sh.command_cursor ≡ length line
      → length line < buffer_size - 1
      → (w : S)
      → Holds
          (record sh {
            command_buffer = set sh.command_buffer sh.command_cursor key;
            command_cursor = suc sh.command_cursor;
            world = w;
          })
          (line ++ key ∷ [])
  write-Holds sh line [] key bytes size cursor room w =
      absurd (omega (arith, ap length bytes, length-append {0} line []))
  write-Holds sh line (r ∷ rest) key bytes size cursor room w = record {
    rest = rest;
    bytes = rw (cursor, bytes, append_assoc line (key ∷ []) rest) (set-middle line rest r key);
    size = length-set sh.command_buffer sh.command_cursor key ∙ size;
    cursor = omega (arith, cursor, length-append {0} line (key ∷ []));
    room = omega (arith, room, length-append {0} line (key ∷ []));
  }

  process_key-Holds :
      (sh : Shell S) (line : List ℕ) (key : ℕ)
      → Holds sh line
      → (key == 10) ≡ false
      → Holds (process_key calls key sh) (
          if key == 8
          then without_last line
          else if length line == buffer_size - 1
          then line
          else line ++ key ∷ [])
  unfolding process_key
  process_key-Holds sh line key h plain = elim (Bool-cases (key == 8)) [
    | inl b ↦ let is_8 : key ≡ 8 = ==→eq key 8 b in rw is_8 (erase-Holds sh line h)
    | inr b ↦ elim (Bool-cases (length line == buffer_size - 1)) [
      | inl full ↦
          let at_end : (sh.command_cursor == buffer_size - 1) ≡ true =
            ap (λ c. c == buffer_size - 1) h.cursor ∙ full in
          rw (plain, b, at_end, full) h
      | inr room ↦
          let not_end : (sh.command_cursor == buffer_size - 1) ≡ false =
            ap (λ c. c == buffer_size - 1) h.cursor ∙ room in
          rw (plain, b, not_end, room)
            (write-Holds sh line h.rest key h.bytes h.size h.cursor (ground (arith, h.room)) _)
    ]
  ]

  type_keys-Holds :
      (keys : List ℕ) (sh : Shell S) (line : List ℕ)
      → Holds sh line
      → AreKeys keys
      → Holds (type_keys keys sh) (edit line keys)
  type_keys-Holds [] sh line h ks = h
  type_keys-Holds (key ∷ keys) sh line h ks =
      type_keys-Holds keys (process_key calls key sh) _
        (process_key-Holds sh line key h (ground arith)) ks.2

  -- The shell behind a command: the buffer is all zeros, the cursor at its start, and the prompt is shown,
  -- after a yield where the command runs in the background.
  abbrev pub ended : Shell S → Shell S
  ended sh = record sh {
    command_buffer = replicate 128 0;
    command_cursor = 0;
    world =
        calls.write_out (127 ∷ []) (if not sh.foreground then calls.yield sh.world else sh.world);
  }

  -- A line typed into an empty buffer and ended by Enter: the buffer that the command is read from
  -- holds the line as the keys edited it, shorter than the buffer. Behind the command the buffer is all
  -- zeros, the cursor is at its start, and the prompt is shown, after a yield where the command runs in the
  -- background.
  pub enter-edit :
      (keys : List ℕ) (sh : Shell S)
      → sh.command_cursor ≡ 0
      → length sh.command_buffer ≡ buffer_size
      → AreKeys keys
      → (buffer : List ℕ) × (process_key calls 10 (type_keys keys sh)
          ≡ ended (
              process_command calls buffer (record (type_keys keys sh) {
                command_buffer = buffer;
                world = calls.write_out (codes "\n") (type_keys keys sh).world;
              })))
        × (c_string buffer ≡ edit [] keys)
        × (length (edit [] keys) < buffer_size)
  unfolding process_key end_line
  enter-edit keys sh start size ks =
      let fresh : Holds sh [] = record {
        rest = sh.command_buffer;
        bytes = refl;
        size = size;
        cursor = start;
        room = omega arith;
      } in
      let h = type_keys-Holds keys sh [] fresh ks in
      let typed = type_keys keys sh in
      (
        set typed.command_buffer typed.command_cursor 0,
        refl,
        rw (h.bytes, h.cursor) (c_string-cut (edit [] keys) h.rest (edit-HasNoNul keys [] tt ks)),
        h.room,
      )
