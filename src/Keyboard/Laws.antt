-- ===== src/Keyboard/Laws.antt =====
-- A key pressed and read.
use tp2_so_2025q.Base.{
  ℕ, suc, ◌<◌, ◌≡◌, refl, ◌∙◌, true, false, some, arith, ◌==◌, length, get_or, set, get_or-set_self,
  length-set,
}
use tp2_so_2025q.System.{Kernel}
use tp2_so_2025q.System.Run.{done, and_then}
use tp2_so_2025q.Text.{codes}
use tp2_so_2025q.Pipes.Permits.{Permits, sem_post_free}
use tp2_so_2025q.Keyboard.{
  Keyboard, key_buf_size, next_index, check_shift, ascii_of, add_ascii, add_key, read_key, beside,
  insert_checked, insert_key,
}

-- Both buffers are empty.
pub record IsEmpty (b : Keyboard) : Type 0 where
  pub ascii_size : length b.ascii_buf ≡ key_buf_size
  pub key_size : length b.key_buf ≡ key_buf_size
  pub ascii_in : b.ascii_insert_index < key_buf_size
  pub key_in : b.insert_index < key_buf_size
  pub ascii_meet : b.ascii_read_index ≡ b.ascii_insert_index
  pub key_meet : b.read_index ≡ b.insert_index

-- What two reads find after a character and its key were added to empty buffers.
record ReadBack (key c : ℕ) (b1 : Keyboard) : Type 0 where
  b2 : Keyboard
  b3 : Keyboard
  character : read_key 0 b1 ≡ some (c, b2)
  code : read_key 3 b2 ≡ some (key, b3)
  ascii_done : b3.ascii_to_read ≡ false
  done_reading : b3.to_read ≡ false
  empty : IsEmpty b3

next_index-lt : (i : ℕ) → i < key_buf_size → next_index i < key_buf_size
unfolding next_index
next_index-lt i h = ground arith

read_back :
    (key c : ℕ) (b : Keyboard) → IsEmpty b → ReadBack key c (add_key key (add_ascii (some c) b))
unfolding read_key add_ascii add_key
read_back key c b e =
    let ai = b.ascii_insert_index in
    let ki = b.insert_index in
    let meet_a : (next_index ai == next_index ai) ≡ true = ground arith in
    let meet_k : (next_index ki == next_index ki) ≡ true = ground arith in
    let at_a : get_or (set b.ascii_buf ai c) ai 0 ≡ c =
      get_or-set_self b.ascii_buf ai c 0 (omega (arith, e.ascii_size, e.ascii_in)) in
    let at_k : get_or (set b.key_buf ki key) ki 0 ≡ key =
      get_or-set_self b.key_buf ki key 0 (omega (arith, e.key_size, e.key_in)) in
    let b1 = add_key key (add_ascii (some c) b) in
    let b2 = record b1 { ascii_read_index = next_index ai; ascii_to_read = false } in
    let b3 = record b2 { read_index = next_index ki; to_read = false } in
    record {
      b2 = b2;
      b3 = b3;
      character = rw (e.ascii_meet, read_key, at_a, meet_a) refl;
      code = rw (e.key_meet, read_key, at_k, meet_k) refl;
      ascii_done = refl;
      done_reading = refl;
      empty = record {
        ascii_size = length-set b.ascii_buf ai c ∙ e.ascii_size;
        key_size = length-set b.key_buf ki key ∙ e.key_size;
        ascii_in = next_index-lt ai e.ascii_in;
        key_in = next_index-lt ki e.key_in;
        ascii_meet = refl;
        key_meet = refl;
      };
    }

check_shift-IsEmpty : (key : ℕ) (b : Keyboard) → IsEmpty b → IsEmpty (check_shift key b)
unfolding check_shift
check_shift-IsEmpty key b e = record {
  ascii_size = e.ascii_size;
  key_size = e.key_size;
  ascii_in = e.ascii_in;
  key_in = e.key_in;
  ascii_meet = e.ascii_meet;
  key_meet = e.key_meet;
}

module _ {H : Type 0} where
  insert_checked_lem :
      (f key c i v : ℕ) (b : Keyboard) (k : Kernel H)
      → Permits k (codes "sem_stdin") i v
      → suc v < 0x8000_0000
      → b.control ≡ false
      → ascii_of key b ≡ some c
      → (k' : Kernel H) × (insert_checked f key b k
          ≡ done tt (add_key key (add_ascii (some c) b), k'))
  unfolding insert_checked beside and_then
  insert_checked_lem f key c i v b k waiting small plain shown =
      let (k', posted, _) = sem_post_free k (codes "sem_stdin") i v waiting small in
      (k', rw (shown, plain, insert_checked, posted, beside, and_then) refl)

  -- A key that stands for a character, without Control, pressed while the buffers are empty and nobody
  -- waits for the keyboard: the handler returns, the next read of characters gives the character, the
  -- next read of keys gives the key, and both buffers are empty again.
  pub read_key-insert_key :
      (f key c i v : ℕ) (b : Keyboard) (k : Kernel H)
      → IsEmpty b
      → Permits k (codes "sem_stdin") i v
      → suc v < 0x8000_0000
      → (check_shift key b).control ≡ false
      → ascii_of key (check_shift key b) ≡ some c
      → (b1 : Keyboard) × (b2 : Keyboard) × (b3 : Keyboard) × (k' : Kernel H) × (insert_key f key
            (b, k)
          ≡ done tt (b1, k'))
        × (read_key 0 b1 ≡ some (c, b2))
        × (read_key 3 b2 ≡ some (key, b3))
        × (b3.ascii_to_read ≡ false)
        × (b3.to_read ≡ false)
        × IsEmpty b3
  unfolding insert_key
  read_key-insert_key f key c i v b k e waiting small plain shown =
      let b0 = check_shift key b in
      let (k', pressed) = insert_checked_lem f key c i v b0 k waiting small plain shown in
      let back = read_back key c b0 (check_shift-IsEmpty key b e) in
      (
        add_key key (add_ascii (some c) b0),
        back.b2,
        back.b3,
        k',
        pressed,
        back.character,
        back.code,
        back.ascii_done,
        back.done_reading,
        back.empty,
      )
