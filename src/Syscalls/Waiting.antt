-- ===== src/Syscalls/Waiting.antt =====
-- The characters that wait in the ring of the keyboard.
use tp2_so_2025q.Base.{
  ℕ, zero, suc, ◌+◌, ◌%◌, ◌≤◌, ◌<◌, ◌≡◌, refl, ap, ◌∙◌, true, not, some, List, [], ◌∷◌, arith, ◌==◌,
  length, get_or,
}
use tp2_so_2025q.Keyboard.{Keyboard, key_buf_size, next_index, read_key}

-- `n` entries of the ring from an index on, and the index behind them.
unfoldable pub contents : List ℕ → ℕ → ℕ → List ℕ
contents buffer i zero = []
contents buffer i (suc n) = get_or buffer i 0 ∷ contents buffer (next_index i) n

unfoldable pub behind : ℕ → ℕ → ℕ
behind i zero = i
behind i (suc n) = behind (next_index i) n

-- The characters `cs` are in the ring, the oldest one first.
pub record Waiting (b : Keyboard) (cs : List ℕ) : Type 0 where
  pub start : b.ascii_read_index < key_buf_size
  pub room : length cs ≤ key_buf_size
  pub bytes : contents b.ascii_buf b.ascii_read_index (length cs) ≡ cs
  pub stop : b.ascii_insert_index ≡ behind b.ascii_read_index (length cs)
  pub flag : b.ascii_to_read ≡ not (length cs == 0)

next_index-mod : (i : ℕ) → i < key_buf_size → next_index i ≡ (i + 1) % 16
unfolding next_index
next_index-mod i h = ground arith

behind-mod : (n i : ℕ) → i < key_buf_size → behind i n ≡ (i + n) % 16
unfolding behind
behind-mod zero i h = omega arith
behind-mod (suc n) i h =
    omega
      (arith, next_index-mod i h, behind-mod n (next_index i) (omega (arith, next_index-mod i h)))

-- Fewer than 16 entries end at another index, unless there are none.
behind-eq : (n i : ℕ) → i < key_buf_size → n < key_buf_size → (i == behind i n) ≡ (n == 0)
behind-eq n i h k = ground (arith, behind-mod n i h)

-- A read takes the oldest character, and the others stay.
pub read_key-Waiting :
    (c : ℕ) (cs : List ℕ) (b : Keyboard)
    → Waiting b (c ∷ cs)
    → (b' : Keyboard) × (read_key 0 b ≡ some (c, b')) × Waiting b' cs
unfolding read_key contents behind
read_key-Waiting c cs b w =
    let next = next_index b.ascii_read_index in
    let in_ring : next < key_buf_size = omega (arith, next_index-mod b.ascii_read_index w.start) in
    let same : (next == b.ascii_insert_index) ≡ (length cs == 0) =
      ap (λ j. next == j) w.stop ∙ behind-eq (length cs) next in_ring (omega (arith, w.room)) in
    let ready : b.ascii_to_read ≡ true = ground (arith, w.flag) in
    let first : get_or b.ascii_buf b.ascii_read_index 0 ≡ c = cc in
    (
      record b { ascii_read_index = next; ascii_to_read = not (length cs == 0) },
      rw (ready, first, same) refl,
      record {
        start = in_ring;
        room = omega (arith, w.room);
        bytes = cc;
        stop = w.stop;
        flag = refl;
      },
    )
