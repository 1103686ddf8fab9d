-- ===== src/Filters/Lines.antt =====
-- cat and filter on whole lines.
use tp2_so_2025q.Base.{
  ℕ, ◌+◌, ◌≤◌, ◌<◌, ◌≡◌, ◌≢◌, refl, sym, ap, ◌∙◌, Bool, true, false, ◌||◌, List, [], ◌∷◌, ◌++◌, inl,
  inr, Bool-cases, arith, ltb, ◌==◌, if◌then◌else◌, length, append_assoc, append-nil, length-append,
}
use mathlib.Core.Bool.{or_assoc, or-false}
use tp2_so_2025q.Text.{codes}
use tp2_so_2025q.Text.Compare.{c_string}
use tp2_so_2025q.Filters.{
  echo, add_char, next_line, on_char, cat_loop, cat_dummy, is_vowel, vowels, filtered, filter_loop,
  filter_dummy,
}

-- Characters without NUL, Backspace and new line.
abbrev pub IsLine : List ℕ → Type 0
IsLine [] = Unit
IsLine (c ∷ s) = (c ≢ 0) × (c ≢ 8) × (c ≢ 10) × IsLine s

-- Lines that the buffers have room for.
abbrev pub AreLines : List (List ℕ) → Type 0
AreLines [] = Unit
AreLines (s ∷ ls) = IsLine s × (length s < 127) × AreLines ls

abbrev pub unlines : List (List ℕ) → List ℕ
unlines [] = []
unlines (s ∷ ls) = s ++ 10 ∷ unlines ls

abbrev pub each : (List ℕ → List ℕ) → List (List ℕ) → List ℕ
each f [] = []
each f (s ∷ ls) = f s ++ each f ls

abbrev pub member : ℕ → List ℕ → Bool
member c [] = false
member c (x ∷ xs) = c == x || member c xs

-- The vowels among the characters.
abbrev pub keep_vowels : List ℕ → List ℕ
keep_vowels [] = []
keep_vowels (c ∷ s) = if member c (codes "aeiouAEIOU") then c ∷ keep_vowels s else keep_vowels s

regroup : (s a b c : List ℕ) → ((s ++ 10 ∷ a) ++ b) ++ c ≡ s ++ 10 ∷ (a ++ (b ++ c))
regroup s a b c = append_assoc (s ++ 10 ∷ a) b c ∙ append_assoc s (10 ∷ a) (b ++ c)

-- A loop that writes at each character what `on_char` does.
abbrev Steps : (List ℕ → List ℕ) → (List ℕ → List ℕ → List ℕ) → Type 0
Steps show loop =
    (line : List ℕ) (c : ℕ) (bytes : List ℕ)
    → loop line (c ∷ bytes) ≡ on_char show line c ++ loop (next_line line c) bytes

each-same :
    {f g : List ℕ → List ℕ} (ls : List (List ℕ))
    → AreLines ls
    → ((s : List ℕ) → IsLine s → f s ≡ g s)
    → each f ls ≡ each g ls
each-same [] h same = refl
each-same (s ∷ ls) h same = rw (same s h.0, each-same ls h.2 same) refl

module _ (show : List ℕ → List ℕ) (loop : List ℕ → List ℕ → List ℕ) (step : Steps show loop) where
  loop-text :
      (s line rest : List ℕ)
      → IsLine s
      → length line + length s ≤ 127
      → loop line (s ++ rest) ≡ s ++ loop (line ++ s) rest
  unfolding on_char next_line add_char echo
  loop-text [] line rest h k = rw (append-nil line) refl
  loop-text (c ∷ s) line rest h k =
      let z : (c == 0) ≡ false = ground arith in
      let b : (c == 8) ≡ false = ground arith in
      let n : (c == 10) ≡ false = ground arith in
      let room : ltb (length line) 127 ≡ true = ground arith in
      let typed : loop line (c ∷ s ++ rest) ≡ c ∷ loop (line ++ c ∷ []) (s ++ rest) =
        step line c (s ++ rest) ∙ rw (z, b, n, room) refl in
      typed
      ∙ ap (◌∷◌ c) (
          loop-text s (line ++ c ∷ []) rest h.3 (rw (length-append line (c ∷ [])) (omega arith))
          ∙ rw (append_assoc line (c ∷ []) s) refl)

  loop-end :
      (line rest : List ℕ)
      → length line < 127
      → loop line (10 ∷ rest) ≡ 10 ∷ show (line ++ 10 ∷ []) ++ loop [] rest
  unfolding on_char next_line add_char echo
  loop-end line rest k =
      let room : ltb (length line) 127 ≡ true = ground arith in step line 10 rest ∙ rw room refl

  loop-lines :
      (ls : List (List ℕ)) (rest : List ℕ)
      → AreLines ls
      → loop [] (unlines ls ++ rest) ≡ each (λ s. s ++ 10 ∷ show (s ++ 10 ∷ [])) ls ++ loop [] rest
  loop-lines [] rest h = refl
  loop-lines (s ∷ ls) rest h =
      let whole = loop-lines ls rest h.2 in
      rw (append_assoc s (10 ∷ unlines ls) rest) (
        loop-text s [] (10 ∷ unlines ls ++ rest) h.0 (omega (arith, h.1))
        ∙ rw (loop-end s (unlines ls ++ rest) h.1, whole)
            (sym (
              regroup s (show (s ++ 10 ∷ [])) (each (λ s. s ++ 10 ∷ show (s ++ 10 ∷ [])) ls)
                (loop [] rest))))

  -- Whole lines, and the characters behind the last of them.
  loop-input :
      (f : List ℕ → List ℕ) (ls : List (List ℕ)) (last : List ℕ)
      → ((s : List ℕ) → IsLine s → show (s ++ 10 ∷ []) ≡ f s)
      → AreLines (last ∷ ls)
      → loop [] (unlines ls ++ last) ≡ each (λ s. s ++ 10 ∷ f s) ls ++ (last ++ loop last [])
  loop-input f ls last same h =
      let end : loop [] last ≡ last ++ loop last [] =
        ap (loop []) (sym (append-nil last)) ∙ loop-text last [] [] h.0 (omega (arith, h.1)) in
      loop-lines ls last h.2
      ∙ rw (each-same ls h.2 (λ s i. ap (λ t. s ++ 10 ∷ t) (same s i)), end) refl

c_string-IsLine : (s t : List ℕ) → IsLine s → c_string (s ++ t) ≡ s ++ c_string t
c_string-IsLine [] t h = refl
c_string-IsLine (c ∷ s) t h =
    let z : (c == 0) ≡ false = ground arith in rw (z, c_string-IsLine s t h.3) refl

c_string_whole : (s : List ℕ) → IsLine s → c_string s ≡ s
c_string_whole [] h = refl
c_string_whole (c ∷ s) h =
    let z : (c == 0) ≡ false = ground arith in rw (z, c_string_whole s h.3) refl

is_vowel-member : (c : ℕ) → is_vowel c ≡ member c (codes "aeiouAEIOU")
unfolding is_vowel
is_vowel-member c = simp (or_assoc, or-false)

vowels-IsLine : (s : List ℕ) → vowels (s ++ 10 ∷ []) ≡ keep_vowels s
unfolding vowels
vowels-IsLine [] = refl
vowels-IsLine (c ∷ s) = rw (is_vowel-member c, vowels-IsLine s) refl

keep_vowels-IsLine : (s : List ℕ) → IsLine s → IsLine (keep_vowels s)
keep_vowels-IsLine [] h = tt
keep_vowels-IsLine (c ∷ s) h = elim (Bool-cases (member c (codes "aeiouAEIOU"))) [
  | inl vowel ↦ rw vowel (h.0, h.1, h.2, keep_vowels-IsLine s h.3)
  | inr other ↦ rw other (keep_vowels-IsLine s h.3)
]

filtered-IsLine : (s : List ℕ) → IsLine s → filtered (s ++ 10 ∷ []) ≡ keep_vowels s ++ 10 ∷ []
unfolding filtered
filtered-IsLine s h =
    rw (vowels-IsLine s, c_string_whole (keep_vowels s) (keep_vowels-IsLine s h)) refl

-- What is written for a line that is not ended.
abbrev pub unless_empty : List ℕ → List ℕ → List ℕ
unless_empty [] out = []
unless_empty (c ∷ s) out = out

vowels_whole : (s : List ℕ) → vowels s ≡ keep_vowels s
unfolding vowels
vowels_whole [] = refl
vowels_whole (c ∷ s) = rw (is_vowel-member c, vowels_whole s) refl

cat_loop-end :
    (last : List ℕ) → IsLine last → cat_loop last [] ≡ unless_empty last (10 ∷ (last ++ 10 ∷ []))
unfolding cat_loop
cat_loop-end [] h = refl
cat_loop-end (c ∷ s) h =
    let some_left : ltb 0 (length (c ∷ s)) ≡ true = ground arith in
    rw some_left (ap (λ t. 10 ∷ (t ++ 10 ∷ [])) (c_string_whole (c ∷ s) h))

filter_loop-end :
    (last : List ℕ)
    → IsLine last
    → filter_loop last [] ≡ unless_empty last (keep_vowels last ++ 10 ∷ [])
unfolding filter_loop filtered
filter_loop-end [] h = refl
filter_loop-end (c ∷ s) h =
    let some_left : ltb 0 (length (c ∷ s)) ≡ true = ground arith in
    let shown = c_string_whole (keep_vowels (c ∷ s)) (keep_vowels-IsLine (c ∷ s) h) in
    rw some_left
      (ap (λ t. c_string t ++ 10 ∷ []) (vowels_whole (c ∷ s)) ∙ ap (λ t. t ++ 10 ∷ []) shown)

cat-Steps : Steps c_string cat_loop
unfolding cat_loop
cat-Steps line c bytes = refl

filter-Steps : Steps filtered filter_loop
unfolding filter_loop
filter-Steps line c bytes = refl

-- `cat` and `filter` in the foreground show what is typed: lines of fewer than 127 characters, without
-- NUL and Backspace, the last of them perhaps without its end. Behind each line `cat` writes the line
-- again, and `filter` its vowels.
pub filters-lines :
    (ls : List (List ℕ)) (last : List ℕ)
    → AreLines (last ∷ ls)
    → (cat_dummy true (unlines ls ++ last)
        ≡ each (λ s. s ++ 10 ∷ (s ++ 10 ∷ [])) ls
          ++ (last ++ unless_empty last (10 ∷ (last ++ 10 ∷ []))))
      × (filter_dummy true (unlines ls ++ last)
          ≡ each (λ s. s ++ 10 ∷ (keep_vowels s ++ 10 ∷ [])) ls
            ++ (last ++ unless_empty last (keep_vowels last ++ 10 ∷ [])))
unfolding cat_dummy filter_dummy
filters-lines ls last h = (
  loop-input c_string cat_loop cat-Steps (λ s. s ++ 10 ∷ []) ls last
        (λ s i. c_string-IsLine s (10 ∷ []) i) h
      ∙ rw (cat_loop-end last h.0) refl,
  loop-input filtered filter_loop filter-Steps (λ s. keep_vowels s ++ 10 ∷ []) ls last
        filtered-IsLine h
      ∙ rw (filter_loop-end last h.0) refl,
)
