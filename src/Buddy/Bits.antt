-- ===== src/Buddy/Bits.antt =====
-- The bit arrays of lib_bit.c: a bit that is set or cleared, and the others as before.
use tp2_so_2025q.Base.{
  ℕ, zero, suc, ◌/◌, ◌%◌, ◌<◌, ◌≡◌, ◌≢◌, refl, ◌∙◌, Bool, true, false, not, ◌&&◌, ◌||◌, some, List,
  [], ◌∷◌, inl, inr, Bool-cases, arith, ltb, ltb→lt, ◌==◌, ==→eq, if◌then◌else◌, length, get_elem?,
  set, get_elem?-some, get_elem?-set_self, get_elem?-set_ne,
}
use tp2_so_2025q.Text.Compare.{AreBytes}
use tp2_so_2025q.Buddy.{byte_test, byte_set, byte_clear, is_bit_set, set_bit, clear_bit}

-- Whether a test holds of each number below a bound.
checked : (ℕ → Bool) → ℕ → Bool
checked test zero = true
checked test (suc n) = let smaller = checked test n in if test n then smaller else false

checked-at : (test : ℕ → Bool) (n i : ℕ) → checked test n ≡ true → i < n → test i ≡ true
unfolding checked
checked-at test zero i all below = absurd (omega arith)
checked-at test (suc n) i all below = elim (Bool-cases (test n)) [
  | inl top ↦ elim (Bool-cases (i == n)) [
    | inl e ↦ rw (==→eq i n e) top
    | inr e ↦ checked-at test n i (ground arith) (ground arith)
  ]
  | inr fails ↦ ground arith
]

both_or_neither : Bool → Bool → Bool
both_or_neither true b = b
both_or_neither false b = not b

both_or_neither-eq : (a b : Bool) → both_or_neither a b ≡ true → a ≡ b
unfolding both_or_neither
both_or_neither-eq true true h = refl
both_or_neither-eq true false h = cc
both_or_neither-eq false true h = cc
both_or_neither-eq false false h = refl

-- Of a byte: what is read behind a set and a clear, and that both are bytes.
set_row : ℕ → ℕ → ℕ → Bool
unfolding both_or_neither
set_row b k j =
    both_or_neither (byte_test (byte_set b k) j) ((k == j) || byte_test b j)
    && both_or_neither (byte_test (byte_clear b k) j) (not (k == j) && byte_test b j)

is_byte_row : ℕ → ℕ → Bool
is_byte_row b k = ltb (byte_set b k) 256 && ltb (byte_clear b k) 256

set_table : checked (λ b. checked (λ k. is_byte_row b k && checked (set_row b k) 8) 8) 256 ≡ true
unfolding checked set_row is_byte_row byte_test byte_set byte_clear
set_table = refl

&&-true : (a b : Bool) → (a && b) ≡ true → (a ≡ true) × (b ≡ true)
&&-true true b h = (refl, h)
&&-true false b h = cc

record ByteLaws (b k : ℕ) : Type 0 where
  set_small : byte_set b k < 256
  clear_small : byte_clear b k < 256
  set_law : (j : ℕ) → j < 8 → byte_test (byte_set b k) j ≡ ((k == j) || byte_test b j)
  clear_law : (j : ℕ) → j < 8 → byte_test (byte_clear b k) j ≡ (not (k == j) && byte_test b j)

byte_laws : (b k : ℕ) → b < 256 → k < 8 → ByteLaws b k
unfolding set_row is_byte_row
byte_laws b k hb hk =
    let row =
      checked-at (λ k. is_byte_row b k && checked (set_row b k) 8) 8 k
        (checked-at (λ b. checked (λ k. is_byte_row b k && checked (set_row b k) 8) 8) 256 b
          set_table hb)
        hk in
    let (small, each) = &&-true (is_byte_row b k) (checked (set_row b k) 8) row in
    let (s, c) = &&-true (ltb (byte_set b k) 256) (ltb (byte_clear b k) 256) small in
    let at = λ (j : ℕ) (hj : j < 8).
      &&-true (both_or_neither (byte_test (byte_set b k) j) ((k == j) || byte_test b j))
        (both_or_neither (byte_test (byte_clear b k) j) (not (k == j) && byte_test b j))
        (checked-at (set_row b k) 8 j each hj) in
    record {
      set_small = ltb→lt (byte_set b k) 256 s;
      clear_small = ltb→lt (byte_clear b k) 256 c;
      set_law = λ j hj. both_or_neither-eq _ _ (at j hj).0;
      clear_law = λ j hj. both_or_neither-eq _ _ (at j hj).1;
    }

AreBytes-get : (a : List ℕ) (i b : ℕ) → AreBytes a → get_elem? a i ≡ some b → b < 256
AreBytes-get [] i b h e = ground arith
AreBytes-get (c ∷ a) zero b h e = ground arith
AreBytes-get (c ∷ a) (suc i) b h e = AreBytes-get a i b h.1 e

set-AreBytes : (a : List ℕ) (i b : ℕ) → AreBytes a → b < 256 → AreBytes (set a i b)
set-AreBytes [] i b h k = tt
set-AreBytes (c ∷ a) zero b h k = (k, h.1)
set-AreBytes (c ∷ a) (suc i) b h k = (h.0, set-AreBytes a i b h.1 k)

-- What is read of an array behind a write to one byte.
read_other :
    (a : List ℕ) (i j v : ℕ) → i / 8 ≢ j / 8 → is_bit_set (set a (i / 8) v) j ≡ is_bit_set a j
unfolding is_bit_set
read_other a i j v ne = rw (get_elem?-set_ne a (i / 8) (j / 8) v ne, is_bit_set) refl

read_byte_of :
    (a : List ℕ) (i j b : ℕ)
    → i / 8 ≡ j / 8
    → get_elem? a (i / 8) ≡ some b
    → is_bit_set a j ≡ some (byte_test b (j % 8))
unfolding is_bit_set
read_byte_of a i j b same at =
    let at' : get_elem? a (j / 8) ≡ some b = rw (← same) at in rw (at', is_bit_set) refl

-- What a write of `v` to the byte of bit `i` does, where the bit reads as `t` in it and the other bits
-- of the byte as before.
change_bit :
    (a : List ℕ) (i j b v : ℕ) (t : Bool)
    → i / 8 < length a
    → get_elem? a (i / 8) ≡ some b
    → ((k : ℕ) → k < 8 → byte_test v k ≡ (if i % 8 == k then t else byte_test b k))
    → is_bit_set (set a (i / 8) v) j ≡ (if i == j then some t else is_bit_set a j)
change_bit a i j b v t inside at law = elim (Bool-cases (i / 8 == j / 8)) [
  | inl e ↦
      let same = ==→eq (i / 8) (j / 8) e in
      let bit : (i % 8 == j % 8) ≡ (i == j) = ground arith in
      rw
        (
          read_byte_of (set a (i / 8) v) i j v same (get_elem?-set_self a (i / 8) v inside),
          law (j % 8) (omega arith),
          bit,
          read_byte_of a i j b same at,
        )
        (ground arith)
  | inr e ↦
      let other : (i == j) ≡ false = ground arith in rw other (read_other a i j v (ground arith))
]

-- In an array of bytes that has bit `i`, `set_bit` makes it 1 and `clear_bit` makes it 0. Each other
-- bit reads as before, and one outside of the array is still outside.
pub set_bit-is_bit_set :
    (a : List ℕ) (i : ℕ)
    → AreBytes a
    → i / 8 < length a
    → (s : List ℕ) × (c : List ℕ) × (set_bit a i ≡ some s)
      × (clear_bit a i ≡ some c)
      × AreBytes s
      × AreBytes c
      × ((j : ℕ) → is_bit_set s j ≡ (if i == j then some true else is_bit_set a j))
      × ((j : ℕ) → is_bit_set c j ≡ (if i == j then some false else is_bit_set a j))
unfolding set_bit clear_bit
set_bit-is_bit_set a i bytes inside =
    let (b, at) = get_elem?-some a (i / 8) inside in
    let laws = byte_laws b (i % 8) (AreBytes-get a (i / 8) b bytes at) (omega arith) in
    (
      set a (i / 8) (byte_set b (i % 8)),
      set a (i / 8) (byte_clear b (i % 8)),
      rw (at, set_bit) refl,
      rw (at, clear_bit) refl,
      set-AreBytes a (i / 8) (byte_set b (i % 8)) bytes laws.set_small,
      set-AreBytes a (i / 8) (byte_clear b (i % 8)) bytes laws.clear_small,
      λ j.
          change_bit a i j b (byte_set b (i % 8)) true inside at
            (λ k hk. laws.set_law k hk ∙ ground arith),
      λ j.
          change_bit a i j b (byte_clear b (i % 8)) false inside at
            (λ k hk. laws.clear_law k hk ∙ ground arith),
    )
