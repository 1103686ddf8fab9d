-- ===== src/Userlib/Decimal.antt =====
-- The texts of numbers: what `char_to_int` accepts, and what `int_to_char` writes.
use tp2_so_2025q.Base.{
  ℕ, zero, suc, ◌+◌, ◌-◌, ◌*◌, ◌/◌, ◌%◌, ◌^◌, ◌≤◌, ◌<◌, ◌≡◌, ◌≢◌, refl, sym, ap, ◌∙◌, true, false,
  some, List, [], ◌∷◌, ◌++◌, inl, inr, Bool-cases, arith, ltb, ltb→lt, ltb→le, ◌==◌, if◌then◌else◌,
  length, is_negative, append_assoc, append-nil, subst,
}
use tp2_so_2025q.Text.Digits.{put_chars}
use tp2_so_2025q.Text.Put.{put_chars-append}
use tp2_so_2025q.Text.Compare.{c_string}
use tp2_so_2025q.Userlib.{
  is_digit, Parsed, number, too_large, char_to_int_loop, char_to_int, temp_digits, backwards,
  int_to_char,
}

-- The number that decimal digits stand for, behind the ones read so far.
abbrev pub decimal : ℕ → List ℕ → ℕ
decimal acc [] = acc
decimal acc (c ∷ s) = decimal (acc * 10 + (c - 48)) s

abbrev pub AreDigits : List ℕ → Type 0
AreDigits [] = Unit
AreDigits (c ∷ s) = (48 ≤ c) × (c ≤ 57) × AreDigits s

le-decimal : (acc : ℕ) (s : List ℕ) → acc ≤ decimal acc s
le-decimal acc [] = omega arith
le-decimal acc (c ∷ s) = omega (arith, le-decimal (acc * 10 + (c - 48)) s)

-- The answer for a number that a `uint32_t` holds or does not.
abbrev pub in_range : ℕ → Parsed
in_range n = if ltb n (2 ^ 32) then number n else too_large

is_digit-true : (c : ℕ) → 48 ≤ c → c ≤ 57 → is_digit c ≡ true
unfolding is_digit
is_digit-true c h k = ground arith

in_range-large : (n : ℕ) → 2 ^ 32 ≤ n → in_range n ≡ too_large
in_range-large n h = ground arith

-- One more digit: the guard asks whether the number stays below 2 ^ 32.
char_to_int_loop-digit :
    (c : ℕ) (s : List ℕ) (acc : ℕ)
    → 48 ≤ c
    → c ≤ 57
    → char_to_int_loop acc (c ∷ s) ≡ (
        if ltb (acc * 10 + (c - 48)) (2 ^ 32)
        then char_to_int_loop (acc * 10 + (c - 48)) s
        else too_large)
unfolding char_to_int_loop
char_to_int_loop-digit c s acc h k =
    let digit = is_digit-true c h k in
    let z : (c == 0) ≡ false = ground arith in
    elim (Bool-cases (ltb (acc * 10 + (c - 48)) (2 ^ 32))) [
      | inl small ↦
          let below = ltb→lt (acc * 10 + (c - 48)) (2 ^ 32) small in
          let pass : ltb ((2 ^ 32 - 1 - (c - 48)) / 10) acc ≡ false = ground arith in
          let same : (acc * 10 + (c - 48)) % 2 ^ 32 ≡ acc * 10 + (c - 48) = omega arith in
          rw (z, digit, small, pass, same) refl
      | inr large ↦
          let above = ltb→le (acc * 10 + (c - 48)) (2 ^ 32) large in
          let stop : ltb ((2 ^ 32 - 1 - (c - 48)) / 10) acc ≡ true = ground arith in
          rw (z, digit, large, stop) refl
    ]

char_to_int_loop_lem :
    (s : List ℕ) (acc : ℕ)
    → acc < 2 ^ 32
    → AreDigits (c_string s)
    → char_to_int_loop acc s ≡ in_range (decimal acc (c_string s))
char_to_int_loop_lem [] acc h ds = unfold char_to_int_loop in ground arith
char_to_int_loop_lem (c ∷ s) acc h ds = elim (Bool-cases (c == 0)) [
  | inl z ↦ rw z (unfold char_to_int_loop in rw z (ground arith))
  | inr z ↦
      let ds' : AreDigits (c ∷ c_string s) = rw z at ds in
      elim (Bool-cases (ltb (acc * 10 + (c - 48)) (2 ^ 32))) [
        | inl small ↦
            rw (char_to_int_loop-digit c s acc ds'.0 ds'.1, small, z)
              (char_to_int_loop_lem s (acc * 10 + (c - 48))
                (ltb→lt (acc * 10 + (c - 48)) (2 ^ 32) small) ds'.2)
        | inr large ↦
            rw (char_to_int_loop-digit c s acc ds'.0 ds'.1, large, z)
              (sym (
                in_range-large (decimal (acc * 10 + (c - 48)) (c_string s)) (
                  omega (
                    arith,
                    le-decimal (acc * 10 + (c - 48)) (c_string s),
                    ltb→le (acc * 10 + (c - 48)) (2 ^ 32) large,
                  ))))
      ]
]

-- `char_to_int` of a text of digits: its number, where that is below 2 ^ 32.
pub char_to_int_lem :
    (s : List ℕ)
    → c_string s ≢ []
    → AreDigits (c_string s)
    → char_to_int s ≡ in_range (decimal 0 (c_string s))
unfolding char_to_int
char_to_int_lem [] ne ds = absurd (ne refl)
char_to_int_lem (c ∷ s) ne ds = elim (Bool-cases (c == 0)) [
  | inl z ↦ absurd (ne (rw z refl))
  | inr z ↦ let answer = char_to_int_loop_lem (c ∷ s) 0 (omega arith) ds in rw z (rw z at answer)
]

-- Digits enough for a number below 10 ^ r.
abbrev ten_to : ℕ → ℕ
ten_to zero = 1
ten_to (suc r) = 10 * ten_to r

single_digit : (n : ℕ) → n < 10 → 0 * 10 + (48 + n % 10 - 48) ≡ n
single_digit n h = omega arith

next_digit : (n : ℕ) → n / 10 * 10 + (48 + n % 10 - 48) ≡ n
next_digit n = omega arith

temp_digits_lem :
    (r n : ℕ) (behind : List ℕ)
    → n < ten_to (suc r)
    → decimal 0 (backwards (temp_digits (suc r) n) behind) ≡ decimal n behind
unfolding temp_digits backwards
temp_digits_lem zero n behind h =
    let last : (ltb 0 (n / 10)) ≡ false = ground arith in
    rw last (ap (λ v. decimal v behind) (single_digit n (omega arith)))
temp_digits_lem (suc r) n behind h = elim (Bool-cases (ltb 0 (n / 10))) [
  | inl more ↦ rw more (
      temp_digits_lem r (n / 10) ((48 + n % 10) ∷ behind) (omega arith)
      ∙ ap (λ v. decimal v behind) (next_digit n))
  | inr done ↦
      rw done (ap (λ v. decimal v behind) (single_digit n (omega (arith, ltb→le 0 (n / 10) done))))
]

backwards-AreDigits :
    (r n : ℕ) (behind : List ℕ) → AreDigits behind → AreDigits (backwards (temp_digits r n) behind)
unfolding temp_digits backwards
backwards-AreDigits zero n behind h = h
backwards-AreDigits (suc r) n behind h = elim (Bool-cases (ltb 0 (n / 10))) [
  | inl more ↦
      rw more
        (backwards-AreDigits r (n / 10) ((48 + n % 10) ∷ behind) (omega arith, omega arith, h))
  | inr done ↦ rw done (omega arith, omega arith, h)
]

backwards-append : (cs behind : List ℕ) → backwards cs behind ≡ backwards cs [] ++ behind
unfolding backwards
backwards-append [] behind = refl
backwards-append (c ∷ cs) behind =
    backwards-append cs (c ∷ behind)
    ∙ sym (append_assoc (backwards cs []) (c ∷ []) behind)
    ∙ ap (λ (t : List ℕ). t ++ behind) (sym (backwards-append cs (c ∷ [])))

c_string-digits : (cs rest : List ℕ) → AreDigits cs → c_string (cs ++ 0 ∷ rest) ≡ cs
c_string-digits [] rest ds = refl
c_string-digits (c ∷ cs) rest ds =
    let z : (c == 0) ≡ false = ground arith in rw z (ap (◌∷◌ c) (c_string-digits cs rest ds.2))

length-backwards : (cs behind : List ℕ) → length (backwards cs behind) ≡ length cs + length behind
unfolding backwards
length-backwards [] behind = omega arith
length-backwards (c ∷ cs) behind = omega (arith, length-backwards cs (c ∷ behind))

temp_digits_bounds :
    (r n : ℕ) → (0 < length (temp_digits (suc r) n)) × (length (temp_digits r n) ≤ r)
unfolding temp_digits
temp_digits_bounds zero n = (omega arith, omega arith)
temp_digits_bounds (suc r) n = elim (Bool-cases (ltb 0 (n / 10))) [
  | inl more ↦ rw more (omega arith, omega (arith, (temp_digits_bounds r (n / 10)).1))
  | inr done ↦ rw done (omega arith, omega arith)
]

int_to_char_positive :
    (value : ℕ) (str : List ℕ)
    → value < 2 ^ 31
    → int_to_char value str ≡ put_chars (backwards (temp_digits 10 value ++ []) (0 ∷ [])) str
unfolding int_to_char
int_to_char_positive value str h =
    let positive : is_negative value ≡ false = ground arith in rw positive refl

-- An `int` from 0 on, written by `int_to_char` into a buffer of eleven bytes or more, is read back by
-- `char_to_int`.
pub char_to_int-int_to_char :
    (value : ℕ) (str : List ℕ)
    → value < 2 ^ 31
    → 11 ≤ length str
    → (out : List ℕ) × (int_to_char value str ≡ some out) × (char_to_int out ≡ number value)
char_to_int-int_to_char value str h room =
    let temp = temp_digits 10 value in
    let cs = backwards temp [] in
    let bounds = temp_digits_bounds 9 value in
    let (rest, put) =
      put_chars-append (backwards temp (0 ∷ [])) str
        (omega (arith, length-backwards temp (0 ∷ []), (temp_digits_bounds 10 value).1)) in
    let out = cs ++ 0 ∷ rest in
    let ds = backwards-AreDigits 10 value [] tt in
    let text = c_string-digits cs rest ds in
    let value_of = temp_digits_lem 9 value [] (omega arith) in
    let nonempty : cs ≢ [] =
      λ none_left. omega (arith, bounds.0, length-backwards temp [], ap length none_left) in
    let read = char_to_int_lem out (λ e. nonempty (sym text ∙ e)) (subst AreDigits (sym text) ds) in
    let same : decimal 0 (c_string out) ≡ value = ap (decimal 0) text ∙ value_of in
    let small : ltb value (2 ^ 32) ≡ true = ground arith in
    (
      out,
      int_to_char_positive value str h
          ∙ ap (λ (t : List ℕ). put_chars (backwards t (0 ∷ [])) str) (append-nil temp)
          ∙ put
          ∙ ap some (
              ap (λ (t : List ℕ). t ++ rest) (backwards-append temp (0 ∷ []))
              ∙ append_assoc cs (0 ∷ []) rest),
      read ∙ ap in_range same ∙ rw small refl,
    )
