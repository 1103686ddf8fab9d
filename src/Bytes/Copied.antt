-- ===== src/Bytes/Copied.antt =====
-- What `memcpy` and `memset` leave at each address.
use tp2_so_2025q.Base.{
  ℕ, zero, suc, ◌+◌, ◌-◌, ◌*◌, ◌/◌, ◌%◌, ltb, leb, ◌≤◌, ◌<◌, ◌≡◌, ◌≢◌, ◌⊎◌, refl, sym, ap, ◌∙◌,
  true, false, inl, inr, Bool-cases, arith, ◌==◌, ◌&&◌, if◌then◌else◌, ==→eq,
}
use tp2_so_2025q.Bytes.{Bytes, store, memset_loop, memset, byte_loop, copy_word, word_loop, memcpy}

-- No byte lies in both blocks.
abbrev pub AreApart : ℕ → ℕ → ℕ → Type 0
AreApart d s n = (d + n ≤ s) ⊎ (s + n ≤ d)

store-other : (m : Bytes) (a b x : ℕ) → x ≢ a → store m a b x ≡ m x
store-other m a b x h = let e : (x == a) ≡ false = ground arith in rw e refl

store-same : (m : Bytes) (a b : ℕ) → store m a b a ≡ b
store-same m a b = let e : (a == a) ≡ true = ground arith in rw e refl

-- One more byte, where the byte to copy still is what it was.
store-kept : (m m' k : Bytes) (a x : ℕ) → m' ≡ k → k x ≡ m x → store m' a (m' x) ≡ store k a (m x)
store-kept m m' k a x e f = ap (λ l. store l a (l x)) e ∙ ap (store k a) f

-- A word is four bytes, where the blocks do not overlap.
copy_word-byte_loop :
    (i d s n : ℕ) (m : Bytes) → AreApart d s n → i + 4 ≤ n → byte_loop 4 i d s m ≡ copy_word i d s m
unfolding copy_word byte_loop
copy_word-byte_loop i d s n m h k =
    let byte : ℕ → ℕ = λ j. m (s + j) in
    let i1 = suc i in
    let i2 = suc i1 in
    let i3 = suc i2 in
    let m1 : Bytes = store m (d + i) (byte i) in
    let m2 : Bytes = store m1 (d + i1) (byte i1) in
    let m3 : Bytes = store m2 (d + i2) (byte i2) in
    let kept1 : m1 (s + i1) ≡ m (s + i1) =
      store-other m (d + i) (byte i) (s + i1) (omega (arith, h, k)) in
    let kept2 : m2 (s + i2) ≡ m (s + i2) =
      store-other m1 (d + i1) (byte i1) (s + i2) (omega (arith, h, k))
      ∙ store-other m (d + i) (byte i) (s + i2) (omega (arith, h, k)) in
    let kept3 : m3 (s + i3) ≡ m (s + i3) =
      store-other m2 (d + i2) (byte i2) (s + i3) (omega (arith, h, k))
      ∙ store-other m1 (d + i1) (byte i1) (s + i3) (omega (arith, h, k))
      ∙ store-other m (d + i) (byte i) (s + i3) (omega (arith, h, k)) in
    store-kept m _ m3 (d + i3) (s + i3)
      (store-kept m _ m2 (d + i2) (s + i2) (store-kept m _ m1 (d + i1) (s + i1) refl kept1) kept2)
      kept3

byte_loop-append :
    (a b i d s : ℕ) (m : Bytes)
    → byte_loop (a + b) i d s m ≡ byte_loop b (i + a) d s (byte_loop a i d s m)
unfolding byte_loop
byte_loop-append zero b i d s m =
    let none : 0 + b ≡ b = omega arith in
    let here : i ≡ i + 0 = omega arith in
    ap (λ k. byte_loop k i d s m) none ∙ ap (λ j. byte_loop b j d s m) here
byte_loop-append (suc a) b i d s m =
    let m' = store m (d + i) (m (s + i)) in
    let more : suc a + b ≡ suc (a + b) = omega arith in
    let on : suc i + a ≡ i + suc a = omega arith in
    ap (λ k. byte_loop k i d s m) more
    ∙ byte_loop-append a b (suc i) d s m'
    ∙ ap (λ j. byte_loop b j d s (byte_loop a (suc i) d s m')) on

word_loop-byte_loop :
    (r i d s n : ℕ) (m : Bytes)
    → AreApart d s n
    → 4 * (i + r) ≤ n
    → word_loop r i d s m ≡ byte_loop (4 * r) (4 * i) d s m
unfolding word_loop byte_loop
word_loop-byte_loop zero i d s n m h k =
    let none : 0 ≡ 4 * 0 = omega arith in ap (λ k. byte_loop k (4 * i) d s m) none
word_loop-byte_loop (suc r) i d s n m h k =
    let on : 4 * suc i ≡ 4 * i + 4 = omega arith in
    let more : 4 + 4 * r ≡ 4 * suc r = omega arith in
    word_loop-byte_loop r (suc i) d s n (copy_word (4 * i) d s m) h (omega (arith, k))
    ∙ ap (byte_loop (4 * r) (4 * suc i) d s)
        (sym (copy_word-byte_loop (4 * i) d s n m h (omega (arith, k))))
    ∙ ap (λ j. byte_loop (4 * r) j d s (byte_loop 4 (4 * i) d s m)) on
    ∙ sym (byte_loop-append 4 (4 * r) (4 * i) d s m)
    ∙ ap (λ k. byte_loop k (4 * i) d s m) more

byte_loop-outside :
    (r i d s : ℕ) (m : Bytes) (x : ℕ) → (x < d + i) ⊎ (d + i + r ≤ x) → byte_loop r i d s m x ≡ m x
unfolding byte_loop
byte_loop-outside zero i d s m x h = refl
byte_loop-outside (suc r) i d s m x h =
    byte_loop-outside r (suc i) d s (store m (d + i) (m (s + i))) x
      (elim h [ inl low ↦ inl (omega (arith, low)) | inr high ↦ inr (omega (arith, high)) ])
    ∙ store-other m (d + i) (m (s + i)) x (omega (arith, h))

byte_loop-inside :
    (r i d s n : ℕ) (m : Bytes) (x : ℕ)
    → AreApart d s n
    → i + r ≤ n
    → d + i ≤ x
    → x < d + i + r
    → byte_loop r i d s m x ≡ m (s + (x - d))
unfolding byte_loop
byte_loop-inside zero i d s n m x h k l u = ground arith
byte_loop-inside (suc r) i d s n m x h k l u = elim (Bool-cases (x == d + i)) [
  | inl here ↦
      let at = ==→eq x (d + i) here in
      byte_loop-outside r (suc i) d s (store m (d + i) (m (s + i))) x (inl (omega (arith, at)))
      ∙ ap (store m (d + i) (m (s + i))) at
      ∙ store-same m (d + i) (m (s + i))
      ∙ ap m (omega (arith, at))
  | inr behind ↦
      let past : d + suc i ≤ x = ground arith in
      byte_loop-inside r (suc i) d s n (store m (d + i) (m (s + i))) x h (omega (arith, k)) past
        (omega (arith, u))
      ∙ store-other m (d + i) (m (s + i)) (s + (x - d)) (omega (arith, h, k, l, u))
]

-- Whether it copies bytes or words, `memcpy` between blocks that are apart does what the loop over
-- bytes does.
memcpy-byte_loop : (d s n : ℕ) (m : Bytes) → AreApart d s n → memcpy d s n m ≡ byte_loop n 0 d s m
unfolding memcpy
memcpy-byte_loop d s n m h = elim (Bool-cases (d % 4 == 0 && s % 4 == 0 && n % 4 == 0)) [
  | inl words ↦
      let four : n % 4 ≡ 0 = ground arith in
      let size : 4 * (n / 4) ≡ n = omega (arith, four) in
      let start : 4 * 0 ≡ 0 = omega arith in
      rw words (
        word_loop-byte_loop (n / 4) 0 d s n m h (omega (arith, size))
        ∙ ap (λ k. byte_loop k (4 * 0) d s m) size
        ∙ ap (λ j. byte_loop n j d s m) start)
  | inr bytes ↦ rw bytes refl
]

-- `memcpy` between blocks that are apart: at the destination stand the bytes of the source, and every
-- other byte is as before.
pub memcpy_lem :
    (d s n : ℕ) (m : Bytes) (x : ℕ)
    → AreApart d s n
    → memcpy d s n m x ≡ (if leb d x && ltb x (d + n) then m (s + (x - d)) else m x)
memcpy_lem d s n m x h =
    ap (λ f. f x) (memcpy-byte_loop d s n m h) ∙ elim (Bool-cases (leb d x && ltb x (d + n))) [
      | inl inside ↦
          let low : d + 0 ≤ x = ground arith in
          let high : x < d + 0 + n = ground arith in
          rw inside (byte_loop-inside n 0 d s n m x h (omega arith) low high)
      | inr outside ↦
          let out : (x < d + 0) ⊎ (d + 0 + n ≤ x) = ground arith in
          rw outside (byte_loop-outside n 0 d s m x out)
    ]

memset_loop_lem :
    (d chr n : ℕ) (m : Bytes) (x : ℕ)
    → memset_loop d chr n m x ≡ (if leb d x && ltb x (d + n) then chr else m x)
unfolding memset_loop
memset_loop_lem d chr zero m x =
    let out : (leb d x && ltb x (d + 0)) ≡ false = ground arith in rw out refl
memset_loop_lem d chr (suc n) m x = memset_loop_lem d chr n (store m (d + n) chr) x ∙ ground arith

-- `memset` stores the low byte of `c` in the block, and every other byte is as before.
pub memset_lem :
    (d c n : ℕ) (m : Bytes) (x : ℕ)
    → memset d c n m x ≡ (if leb d x && ltb x (d + n) then c % 256 else m x)
unfolding memset
memset_lem d c n m x = memset_loop_lem d (c % 256) n m x
