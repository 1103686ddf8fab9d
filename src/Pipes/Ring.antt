-- ===== src/Pipes/Ring.antt =====
-- The ring of a pipe as a queue of bytes.
use tp2_so_2025q.Base.{
  ℕ, zero, suc, ◌+◌, ◌%◌, ◌≤◌, ◌<◌, ◌≡◌, refl, subst, ◌∙◌, List, [], ◌∷◌, ◌++◌, arith, length,
  get_or, set, length-set, get_or-set_self, get_or-set_ne, add32,
}
use tp2_so_2025q.System.{Pipe}
use tp2_so_2025q.Pipes.{pipe_buffer_size, put_byte, take_byte}

-- The `n` bytes from `r` on, going round.
unfoldable pub contents : List ℕ → ℕ → ℕ → List ℕ
contents buffer r zero = []
contents buffer r (suc n) = get_or buffer r 0 ∷ contents buffer ((r + 1) % pipe_buffer_size) n

-- The ring holds `n` bytes.
pub record RingIsValid (p : Pipe) (n : ℕ) : Type 0 where
  pub size : length p.buffer ≡ pipe_buffer_size
  pub read : p.read_index < pipe_buffer_size
  pub room : n ≤ pipe_buffer_size
  pub write : p.write_index ≡ (p.read_index + n) % pipe_buffer_size

abbrev pub queue : Pipe → ℕ → List ℕ
queue p n = contents p.buffer p.read_index n

-- A write outside of the bytes that are held does not change them.
contents-set :
    (buffer : List ℕ) (r n m b : ℕ)
    → r < pipe_buffer_size
    → n ≤ m
    → m < pipe_buffer_size
    → contents (set buffer ((r + m) % pipe_buffer_size) b) r n ≡ contents buffer r n
unfolding contents
contents-set buffer r zero m b hr le hm = refl
contents-set buffer r (suc n) zero b hr le hm = absurd (omega arith)
contents-set buffer r (suc n) (suc m) b hr le hm =
    let w = (r + suc m) % pipe_buffer_size in
    let next = (r + 1) % pipe_buffer_size in
    let same : (next + m) % pipe_buffer_size ≡ w = omega arith in
    let head : get_or (set buffer w b) r 0 ≡ get_or buffer r 0 =
      get_or-set_ne buffer w r b 0 (λ e. omega arith) in
    let tail : contents (set buffer w b) next n ≡ contents buffer next n =
      subst (λ x. contents (set buffer x b) next n ≡ contents buffer next n) same
        (contents-set buffer next n m b (omega arith) (omega arith) (omega arith)) in
    λ t. head t ∷ tail t

contents-end :
    (buffer : List ℕ) (r n : ℕ)
    → r < pipe_buffer_size
    → contents buffer r (suc n)
      ≡ contents buffer r n ++ get_or buffer ((r + n) % pipe_buffer_size) 0 ∷ []
unfolding contents
contents-end buffer r zero hr =
    let here : (r + 0) % pipe_buffer_size ≡ r = omega arith in rw here refl
contents-end buffer r (suc n) hr =
    let next = (r + 1) % pipe_buffer_size in
    let same : (next + n) % pipe_buffer_size ≡ (r + suc n) % pipe_buffer_size = omega arith in
    rw (contents-end buffer next n (omega arith), same) refl

-- A byte put into a ring that is not full goes to the end of the queue.
pub put_byte-queue :
    (p : Pipe) (n b : ℕ)
    → RingIsValid p n
    → n < pipe_buffer_size
    → RingIsValid (put_byte b p) (suc n) × (queue (put_byte b p) (suc n) ≡ queue p n ++ b ∷ [])
unfolding put_byte
put_byte-queue p n b v room = (
  record {
    size = length-set p.buffer p.write_index b ∙ v.size;
    read = v.read;
    room = omega arith;
    write = omega (arith, v.write, v.read);
  },
  rw
      (
        v.write,
        contents-end (set p.buffer ((p.read_index + n) % pipe_buffer_size) b) p.read_index n v.read,
        contents-set p.buffer p.read_index n n b v.read (omega arith) room,
        get_or-set_self p.buffer ((p.read_index + n) % pipe_buffer_size) b 0
            (omega (arith, v.size)),
      )
      refl,
)

-- A byte taken is the head of the queue.
pub take_byte-queue :
    (p : Pipe) (n : ℕ)
    → RingIsValid p (suc n)
    → RingIsValid (take_byte p) n
      × (queue p (suc n) ≡ get_or p.buffer p.read_index 0 ∷ queue (take_byte p) n)
unfolding take_byte contents
take_byte-queue p n v =
    let next : add32 p.read_index 1 % pipe_buffer_size ≡ (p.read_index + 1) % pipe_buffer_size =
      omega (arith, v.read) in
    (
      record {
        size = v.size;
        read = omega (arith, v.read);
        room = omega (arith, v.room);
        write = omega (arith, v.write, v.read);
      },
      rw next refl,
    )
