-- ===== src/Bytes.antt =====
-- Kernel/libs/lib_mem.c: `memset` and `memcpy`, over a memory that holds a byte at each address. The
-- blocks lie inside the address space, so no address wraps around.
pub mod Copied
mod Tests
use tp2_so_2025q.Base.{ℕ, zero, suc, ◌+◌, ◌*◌, ◌/◌, ◌%◌, ◌&&◌, ◌==◌, if◌then◌else◌}

abbrev pub Bytes : Type 0
Bytes = ℕ → ℕ

-- `*address = byte`.
abbrev pub store : Bytes → ℕ → ℕ → Bytes
store m address byte x = if x == address then byte else m x

-- The loop of `memset`, from the last byte down.
unfoldable pub memset_loop : ℕ → ℕ → ℕ → Bytes → Bytes
memset_loop dst chr zero m = m
memset_loop dst chr (suc length) m = memset_loop dst chr length (store m (dst + length) chr)

unfoldable pub memset : ℕ → ℕ → ℕ → Bytes → Bytes
unfolding memset_loop
memset destination c length m = memset_loop destination (c % 256) length m

-- `d[i] = s[i]` of two arrays of bytes, with the rounds left and `i`.
unfoldable pub byte_loop : ℕ → ℕ → ℕ → ℕ → Bytes → Bytes
byte_loop zero i d s m = m
byte_loop (suc r) i d s m = byte_loop r (suc i) d s (store m (d + i) (m (s + i)))

-- The word of the bytes from `i` on: all of them are read before one is written.
unfoldable pub copy_word : ℕ → ℕ → ℕ → Bytes → Bytes
copy_word i d s m =
    let byte : ℕ → ℕ = λ k. m (s + k) in
    let m1 : Bytes = store m (d + i) (byte i) in
    let m2 : Bytes = store m1 (d + suc i) (byte (suc i)) in
    let m3 : Bytes = store m2 (d + suc (suc i)) (byte (suc (suc i))) in
    store m3 (d + suc (suc (suc i))) (byte (suc (suc (suc i))))

-- The same loop of two arrays of words.
unfoldable pub word_loop : ℕ → ℕ → ℕ → ℕ → Bytes → Bytes
unfolding copy_word
word_loop zero i d s m = m
word_loop (suc r) i d s m = word_loop r (suc i) d s (copy_word (4 * i) d s m)

unfoldable pub memcpy : ℕ → ℕ → ℕ → Bytes → Bytes
unfolding byte_loop word_loop
memcpy destination source length m =
    if destination % 4 == 0 && source % 4 == 0 && length % 4 == 0
    then word_loop (length / 4) 0 destination source m
    else byte_loop length 0 destination source m
