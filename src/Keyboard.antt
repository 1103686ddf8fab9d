-- ===== src/Keyboard.antt =====
-- Kernel/keyboard.c: the two buffers of keys, and the modifier keys.
pub mod Laws
mod Tests
use tp2_so_2025q.Base.{
  ℕ, zero, suc, ◌-◌, Bool, true, false, not, ◌&&◌, ◌||◌, Option, none, some, List, [], ◌∷◌, ltb,
  leb, ◌==◌, if◌then◌else◌, get_elem?, get_or, set, replicate, sign_extend,
}
use tp2_so_2025q.Text.{codes}
use tp2_so_2025q.System.{Kernel}
use tp2_so_2025q.System.Run.{Run, done, fault, spin, switch, Op, and_then}
use tp2_so_2025q.Semaphore.{sem_post}
use tp2_so_2025q.Lifecycle.Kill.{kill_process}

abbrev pub key_buf_size : ℕ
key_buf_size = 16

-- The entries behind the last key are 0, as those that a C initialiser leaves out.
abbrev pub scan_chars : List ℕ
scan_chars =
    0
    ∷ 27
    ∷ 49
    ∷ 50
    ∷ 51
    ∷ 52
    ∷ 53
    ∷ 54
    ∷ 55
    ∷ 56
    ∷ 57
    ∷ 48
    ∷ 45
    ∷ 61
    ∷ 8
    ∷ 9
    ∷ 113
    ∷ 119
    ∷ 101
    ∷ 114
    ∷ 116
    ∷ 121
    ∷ 117
    ∷ 105
    ∷ 111
    ∷ 112
    ∷ 91
    ∷ 93
    ∷ 10
    ∷ 0
    ∷ 97
    ∷ 115
    ∷ 100
    ∷ 102
    ∷ 103
    ∷ 104
    ∷ 106
    ∷ 107
    ∷ 108
    ∷ 59
    ∷ 39
    ∷ 96
    ∷ 0
    ∷ 92
    ∷ 122
    ∷ 120
    ∷ 99
    ∷ 118
    ∷ 98
    ∷ 110
    ∷ 109
    ∷ 44
    ∷ 46
    ∷ 47
    ∷ 0
    ∷ 42
    ∷ 0
    ∷ 32
    ∷ 0
    ∷ 0
    ∷ 0
    ∷ 0
    ∷ 0
    ∷ 0
    ∷ 0
    ∷ 0
    ∷ 0
    ∷ 0
    ∷ 0
    ∷ 0
    ∷ 0
    ∷ 0
    ∷ 0
    ∷ 0
    ∷ 0
    ∷ 0
    ∷ 0
    ∷ 0
    ∷ 0
    ∷ 0
    ∷ 0
    ∷ 0
    ∷ 0
    ∷ 0
    ∷ 45
    ∷ 0
    ∷ 0
    ∷ 43
    ∷ replicate 40 0

abbrev pub scan_chars_shift : List ℕ
scan_chars_shift =
    0
    ∷ 27
    ∷ 33
    ∷ 64
    ∷ 35
    ∷ 36
    ∷ 37
    ∷ 94
    ∷ 38
    ∷ 42
    ∷ 40
    ∷ 41
    ∷ 95
    ∷ 43
    ∷ 8
    ∷ 9
    ∷ 81
    ∷ 87
    ∷ 69
    ∷ 82
    ∷ 84
    ∷ 89
    ∷ 85
    ∷ 73
    ∷ 79
    ∷ 80
    ∷ 123
    ∷ 125
    ∷ 10
    ∷ 0
    ∷ 65
    ∷ 83
    ∷ 68
    ∷ 70
    ∷ 71
    ∷ 72
    ∷ 74
    ∷ 75
    ∷ 76
    ∷ 58
    ∷ 34
    ∷ 124
    ∷ 0
    ∷ 92
    ∷ 90
    ∷ 88
    ∷ 67
    ∷ 86
    ∷ 66
    ∷ 78
    ∷ 77
    ∷ 60
    ∷ 62
    ∷ 63
    ∷ 0
    ∷ 42
    ∷ 0
    ∷ 32
    ∷ 0
    ∷ 0
    ∷ 0
    ∷ 0
    ∷ 0
    ∷ 0
    ∷ 0
    ∷ 0
    ∷ 0
    ∷ 0
    ∷ 0
    ∷ 0
    ∷ 0
    ∷ 0
    ∷ 0
    ∷ 0
    ∷ 0
    ∷ 0
    ∷ 0
    ∷ 0
    ∷ 0
    ∷ 0
    ∷ 0
    ∷ 0
    ∷ 0
    ∷ 0
    ∷ 45
    ∷ 0
    ∷ 0
    ∷ 43
    ∷ replicate 40 0

pub record Keyboard : Type 0 where
  pub key_buf : List ℕ
  pub insert_index : ℕ
  pub read_index : ℕ
  pub to_read : Bool
  pub ascii_buf : List ℕ
  pub shifted : Bool
  pub caps : Bool
  pub control : Bool
  pub saved : Bool
  pub ascii_insert_index : ℕ
  pub ascii_read_index : ℕ
  pub ascii_to_read : Bool
  pub foreground_pid : ℕ

-- `if (++i == KEY_BUF_SIZE) i = 0`.
unfoldable pub next_index : ℕ → ℕ
next_index i = if suc i == key_buf_size then 0 else suc i

unfoldable pub check_shift : ℕ → Keyboard → Keyboard
check_shift key b = record b {
  shifted =
      if (key == 0xaa) || (key == 0xb6)
      then false
      else if (key == 0x2a) || (key == 0x37)
      then true
      else b.shifted;
  caps = if key == 0x3a then not b.caps else b.caps;
  control = if key == 0x9d then false else if key == 0x1d then true else b.control;
  saved = if key == 0x38 then true else b.saved;
}

-- The character that a key adds to `ascii_buf`, if it adds one; the modifiers are up to date.
unfoldable pub ascii_of : ℕ → Keyboard → Option ℕ
ascii_of key b =
    if b.control
    then if key == 0x20 then some 4 else none
    else if not (leb key 0x52) || (get_or scan_chars key 0 == 0)
    then none
    else if b.shifted || (b.caps && leb 0x10 key)
    then some (get_or scan_chars_shift key 0)
    else some (get_or scan_chars key 0)

unfoldable pub add_ascii : Option ℕ → Keyboard → Keyboard
unfolding next_index
add_ascii none b = b
add_ascii (some c) b = record b {
  ascii_buf = set b.ascii_buf b.ascii_insert_index c;
  ascii_insert_index = next_index b.ascii_insert_index;
  ascii_to_read = true;
}

unfoldable pub add_key : ℕ → Keyboard → Keyboard
unfolding next_index
add_key key b = record b {
  to_read = true;
  key_buf = set b.key_buf b.insert_index key;
  insert_index = next_index b.insert_index;
}

-- The number that `read_key` returns, and the buffers behind it. `none`: with STDLAST and the index at
-- 0 it reads before the start of `ascii_buf`.
unfoldable pub read_key : ℕ → Keyboard → Option (ℕ × Keyboard)
unfolding next_index
read_key fd b =
    let ascii_next = next_index b.ascii_read_index in
    let next = next_index b.read_index in
    if fd == 0
    then if not b.ascii_to_read
      then some (0, b)
      else some (
        get_or b.ascii_buf b.ascii_read_index 0,
        record b {
          ascii_read_index = ascii_next;
          ascii_to_read = not (ascii_next == b.ascii_insert_index);
        },
      )
    else if fd == 3
    then if not b.to_read
      then some (0, b)
      else some (
        get_or b.key_buf b.read_index 0,
        record b { read_index = next; to_read = not (next == b.insert_index) },
      )
    else if fd == 4
    then elim b.ascii_insert_index [ zero ↦ none | suc i ↦ some (get_or b.ascii_buf i 0, b) ]
    else some (0, b)

unfoldable pub flush_buffer : Keyboard → Keyboard
flush_buffer b = record b {
  read_index = 0;
  insert_index = 0;
  to_read = false;
  ascii_insert_index = 0;
  ascii_read_index = 0;
  ascii_to_read = false;
}

module _ {H : Type 0} where
  -- A routine of the kernel, run beside the keyboard; another process may change both at a switch.
  unfoldable pub beside : {A : Type 0} → Keyboard → Run (Kernel H) A → Run (Keyboard × Kernel H) A
  beside b (done a k) = done a (b, k)
  beside b fault = fault
  beside b spin = spin
  beside b (switch k rest) = switch (b, k) (λ s. beside s.0 (rest s.1))

  -- The handler behind the modifiers. Control and C kill the process in the foreground, unless it is
  -- the shell; `f` is the depth of the calls of `kill_process`.
  unfoldable pub insert_checked : ℕ → ℕ → Keyboard → Kernel H → Run (Keyboard × Kernel H) (Unit {0})
  insert_checked f key b k =
      if b.control && (key == 0x2e)
      then if b.foreground_pid == k.shell_pid
        then done tt (b, k)
        else and_then (beside b (kill_process f (sign_extend b.foreground_pid) k))
            (λ _ s. done tt s)
      else and_then (beside (add_ascii (ascii_of key b) b) (sem_post (codes "sem_stdin") k))
          (λ _ s. done tt (add_key key s.0, s.1))

  -- The handler of a key, a byte.
  unfoldable pub insert_key : ℕ → ℕ → Op (Keyboard × Kernel H) (Unit {0})
  insert_key f key (b, k) = insert_checked f key (check_shift key b) k
