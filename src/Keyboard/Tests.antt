-- ===== src/Keyboard/Tests.antt =====
-- The key A with Shift held down, and Control with C.
use tp2_so_2025q.Base.{◌≡◌, refl, true, false, some, arith, replicate}
use tp2_so_2025q.Text.{codes, strcmp}
use tp2_so_2025q.System.{Kernel}
use tp2_so_2025q.System.Run.{done}
use tp2_so_2025q.System.Sample.{kernel, lock}
use tp2_so_2025q.Semaphore.{find_sem}
use tp2_so_2025q.Pipes.Permits.{Permits}
use tp2_so_2025q.Keyboard.{Keyboard, check_shift, ascii_of, read_key, insert_key, insert_checked}
use tp2_so_2025q.Keyboard.Laws.{IsEmpty, read_key-insert_key}

abbrev held_shift : Keyboard
held_shift = record {
  key_buf = replicate 16 0;
  insert_index = 15;
  read_index = 15;
  to_read = false;
  ascii_buf = replicate 16 0;
  shifted = true;
  caps = false;
  control = false;
  saved = false;
  ascii_insert_index = 3;
  ascii_read_index = 3;
  ascii_to_read = false;
  foreground_pid = 1;
}

abbrev awake : Kernel (Unit {0})
awake = kernel (record lock { name = codes "sem_stdin" })

-- The shell is in the foreground and lives on.
interrupt_shell :
    insert_key 1 0x2e (record held_shift { control = true }, awake)
    ≡ done tt (record held_shift { control = true }, awake)
unfolding insert_key insert_checked check_shift
interrupt_shell = refl

stdin-Permits : Permits awake (codes "sem_stdin") 0 0
unfolding find_sem strcmp
stdin-Permits = record {
  sem = record lock { name = codes "sem_stdin" };
  found = refl;
  there = refl;
  value = refl;
  unlocked = refl;
  alone = refl;
}

held_shift-IsEmpty : IsEmpty held_shift
held_shift-IsEmpty = record {
  ascii_size = refl;
  key_size = refl;
  ascii_in = omega arith;
  key_in = omega arith;
  ascii_meet = refl;
  key_meet = refl;
}

read_key-insert_key_example :
    (b1 : Keyboard) × (b2 : Keyboard) × (b3 : Keyboard) × (k : Kernel (Unit {0})) × (insert_key 1
        0x1e
        (held_shift, awake)
      ≡ done tt (b1, k))
    × (read_key 0 b1 ≡ some (65, b2))
    × (read_key 3 b2 ≡ some (0x1e, b3))
    × (b3.ascii_to_read ≡ false)
    × (b3.to_read ≡ false)
    × IsEmpty b3
unfolding check_shift ascii_of
read_key-insert_key_example =
    read_key-insert_key 1 0x1e 65 0 0 held_shift awake held_shift-IsEmpty stdin-Permits
      (omega arith) refl refl
