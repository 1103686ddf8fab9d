-- ===== src/Text/Compare.antt =====
-- What the functions of lib_str.c compute, in terms of the strings that the buffers hold.
use tp2_so_2025q.Base.{
  ℕ, zero, suc, ◌+◌, ◌≤◌, ◌<◌, ◌≡◌, refl, ◌↔◌, none, some, List, [], ◌∷◌, ◌++◌, inl, inr,
  Bool-cases, arith, ◌==◌, if◌then◌else◌, length, take,
}
use tp2_so_2025q.Text.{strcmp, strlen, strcpy, strncpy, strcat, strncat, cons_some}

-- The bytes before the NUL.
abbrev pub c_string : List ℕ → List ℕ
c_string [] = []
c_string (c ∷ s) = if c == 0 then [] else c ∷ c_string s

abbrev pub AreBytes : List ℕ → Type 0
AreBytes [] = Unit
AreBytes (c ∷ s) = (c < 256) × AreBytes s

-- `strcmp` answers 0 exactly on buffers that hold the same string.
pub strcmp-zero_iff :
    (s t : List ℕ) → AreBytes s → AreBytes t → (strcmp s t ≡ 0) ↔ (c_string s ≡ c_string t)
unfolding strcmp
strcmp-zero_iff [] [] bs bt = (λ _. refl, λ _. refl)
strcmp-zero_iff [] (b ∷ t) bs bt = (λ h. ground arith, λ h. ground arith)
strcmp-zero_iff (a ∷ s) [] bs bt = (λ h. ground arith, λ h. ground arith)
strcmp-zero_iff (a ∷ s) (b ∷ t) bs bt = (
  λ h. ground (arith, (strcmp-zero_iff s t bs.1 bt.1).0),
  λ h. ground (arith, (strcmp-zero_iff s t bs.1 bt.1).1),
)

pub strlen-length : (s : List ℕ) → strlen s ≡ length (c_string s)
unfolding strlen
strlen-length [] = refl
strlen-length (c ∷ s) = ground (arith, strlen-length s)

-- With room for `n` bytes and a NUL, `strncpy` succeeds: the buffer keeps its length and holds the
-- first `n` bytes of the source.
pub strncpy_lem :
    (dest src : List ℕ) (n : ℕ)
    → n < length dest
    → (out : List ℕ) × (strncpy dest src n ≡ some out)
      × (length out ≡ length dest)
      × (c_string out ≡ take n (c_string src))
unfolding strncpy cons_some
strncpy_lem [] src n h = absurd (omega arith)
strncpy_lem (d ∷ dest) src zero h = (0 ∷ dest, refl, refl, ground arith)
strncpy_lem (d ∷ dest) [] (suc n) h = (0 ∷ dest, refl, refl, ground arith)
strncpy_lem (d ∷ dest) (c ∷ src) (suc n) h = elim (Bool-cases (c == 0)) [
  | inl e ↦ (0 ∷ dest, ground arith, refl, ground arith)
  | inr e ↦
      let (out, p, q, r) = strncpy_lem dest src n (omega arith) in
      (c ∷ out, ground arith, omega arith, ground arith)
]

-- With room for the whole source and a NUL, `strcpy` leaves the source in the buffer.
pub strcpy_lem :
    (dest src : List ℕ)
    → strlen src < length dest
    → (out : List ℕ) × (strcpy dest src ≡ some out)
      × (length out ≡ length dest)
      × (c_string out ≡ c_string src)
unfolding strcpy strlen cons_some
strcpy_lem [] src h = absurd (omega arith)
strcpy_lem (d ∷ dest) [] h = (0 ∷ dest, refl, refl, ground arith)
strcpy_lem (d ∷ dest) (c ∷ src) h = elim (Bool-cases (c == 0)) [
  | inl e ↦ (0 ∷ dest, ground arith, refl, ground arith)
  | inr e ↦
      let (out, p, q, r) = strcpy_lem dest src (ground arith) in
      (c ∷ out, ground arith, omega arith, ground arith)
]

-- Without that room `strcpy` writes past the end.
pub strcpy_overflow : (dest src : List ℕ) → length dest ≤ strlen src → strcpy dest src ≡ none
unfolding strcpy strlen cons_some
strcpy_overflow [] src h = refl
strcpy_overflow (d ∷ dest) [] h = absurd (omega arith)
strcpy_overflow (d ∷ dest) (c ∷ src) h = ground (arith, strcpy_overflow dest src)

-- Where both strings and a NUL fit, `strcat` leaves one behind the other.
pub strcat_lem :
    (dest src : List ℕ)
    → strlen dest + strlen src < length dest
    → (out : List ℕ) × (strcat dest src ≡ some out)
      × (length out ≡ length dest)
      × (c_string out ≡ c_string dest ++ c_string src)
unfolding strcat strlen cons_some
strcat_lem [] src h = absurd (omega arith)
strcat_lem (d ∷ dest) src h = elim (Bool-cases (d == 0)) [
  | inl e ↦
      let (out, p, q, r) = strcpy_lem (d ∷ dest) src (ground arith) in
      (out, ground arith, q, ground arith)
  | inr e ↦
      let (out, p, q, r) = strcat_lem dest src (ground arith) in
      (d ∷ out, ground arith, omega arith, ground arith)
]

-- `strncat` appends at most `n` bytes of the source.
pub strncat_lem :
    (dest src : List ℕ) (n : ℕ)
    → strlen dest + n < length dest
    → (out : List ℕ) × (strncat dest src n ≡ some out)
      × (length out ≡ length dest)
      × (c_string out ≡ c_string dest ++ take n (c_string src))
unfolding strncat strlen cons_some
strncat_lem [] src n h = absurd (omega arith)
strncat_lem (d ∷ dest) src n h = elim (Bool-cases (d == 0)) [
  | inl e ↦
      let (out, p, q, r) = strncpy_lem (d ∷ dest) src n (ground arith) in
      (out, ground arith, q, ground arith)
  | inr e ↦
      let (out, p, q, r) = strncat_lem dest src n (ground arith) in
      (d ∷ out, ground arith, omega arith, ground arith)
]
