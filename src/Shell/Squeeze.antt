-- ===== src/Shell/Squeeze.antt =====
-- `remove_extra_spaces` works in place: it reads ahead of where it writes. What it leaves is the words
-- of the line with one space between any two.
use tp2_so_2025q.Base.{
  ℕ, zero, suc, ◌+◌, ◌≤◌, ◌≡◌, ◌≢◌, refl, sym, ap, ◌∙◌, Bool, true, false, List, [], ◌∷◌, ◌++◌, ◌⊎◌,
  inl, inr, Bool-cases, arith, ◌==◌, if◌then◌else◌, length, get_or, set, append_assoc, append-nil,
  length-append, set-middle,
}
use tp2_so_2025q.Text.Compare.{c_string}
use tp2_so_2025q.Shell.{is_blank, squeeze_loop, end_squeezed, remove_extra_spaces}
use tp2_so_2025q.Shell.Words.{put_letter, pieces, non_empty, words, behind, unwords}

-- What the loop writes for a text without a NUL.
squeezed : Bool → List ℕ → List ℕ
squeezed sp [] = []
squeezed sp (c ∷ s) =
    let rest = squeezed (is_blank c) s in
    if is_blank c then if sp then rest else 32 ∷ rest else c ∷ rest

-- A text without its last byte, if that is a space.
trim : List ℕ → List ℕ
trim [] = []
trim (c ∷ []) = if c == 32 then [] else c ∷ []
trim (c ∷ d ∷ s) = c ∷ trim (d ∷ s)

trim-letter : (c : ℕ) (s : List ℕ) → is_blank c ≡ false → trim (c ∷ s) ≡ c ∷ trim s
unfolding trim is_blank
trim-letter c [] h = ground arith
trim-letter c (d ∷ s) h = refl

-- A text of blanks leaves nothing; any other starts with a letter, and has a word.
record Shows (s : List ℕ) : Type 0 where
  letter : ℕ
  others : List ℕ
  word : List ℕ
  more : List (List ℕ)
  written : squeezed true s ≡ letter ∷ others
  meant : words s ≡ word ∷ more

put_letter-shown :
    (c : ℕ) (ps : List (List ℕ))
    → (w : List ℕ) × (ws : List (List ℕ)) × (non_empty (put_letter c ps) ≡ w ∷ ws)
put_letter-shown c [] = (c ∷ [], [], refl)
put_letter-shown c (w ∷ ws) = (c ∷ w, non_empty ws, refl)

squeezed-cases : (s : List ℕ) → ((squeezed true s ≡ []) × (words s ≡ [])) ⊎ Shows s
unfolding squeezed words pieces
squeezed-cases [] = inl (refl, refl)
squeezed-cases (c ∷ s) = elim (Bool-cases (is_blank c)) [
  | inl b ↦ elim (squeezed-cases s) [
    | inl h ↦ inl (rw (b, h.0) refl, rw b h.1)
    | inr h ↦ inr (record {
      letter = h.letter;
      others = h.others;
      word = h.word;
      more = h.more;
      written = rw (b, h.written) refl;
      meant = rw b h.meant;
    })
  ]
  | inr b ↦
      let (w, ws, e) = put_letter-shown c (pieces s) in
      inr (record {
        letter = c;
        others = squeezed false s;
        word = w;
        more = ws;
        written = rw b refl;
        meant = rw b e;
      })
]

-- The text of the pieces, the first of which may go on.
text : List (List ℕ) → List ℕ
text [] = []
text (w ∷ ws) = w ++ behind (non_empty ws)

unwords-put_letter :
    (c : ℕ) (ps : List (List ℕ)) → unwords (non_empty (put_letter c ps)) ≡ c ∷ text ps
unfolding text
unwords-put_letter c [] = refl
unwords-put_letter c (w ∷ ws) = refl

text-put_letter : (c : ℕ) (ps : List (List ℕ)) → text (put_letter c ps) ≡ c ∷ text ps
unfolding text
text-put_letter c [] = refl
text-put_letter c (w ∷ ws) = refl

unwords-behind :
    {w : List ℕ} {m : List (List ℕ)} (ws : List (List ℕ)) → ws ≡ w ∷ m → 32 ∷ unwords ws ≡ behind ws
unwords-behind ws e = rw e refl

mutual
  unfolding squeezed words pieces trim text

  trim-squeezed : (s : List ℕ) → trim (squeezed true s) ≡ unwords (words s)
  trim-squeezed [] = refl
  trim-squeezed (c ∷ s) = elim (Bool-cases (is_blank c)) [
    | inl b ↦ rw b (trim-squeezed s)
    | inr b ↦
        rw (b, trim-letter c (squeezed false s) b, trim-squeezed_on s)
          (sym (unwords-put_letter c (pieces s)))
  ]

  trim-squeezed_on : (s : List ℕ) → trim (squeezed false s) ≡ text (pieces s)
  trim-squeezed_on [] = refl
  trim-squeezed_on (c ∷ s) = elim (Bool-cases (is_blank c)) [
    | inl b ↦ elim (squeezed-cases s) [
      | inl h ↦ rw (b, h.0) (ap behind (sym h.1))
      | inr h ↦
          rw (b, h.written)
            (ap (λ t. 32 ∷ trim t) (sym h.written)
              ∙ ap (◌∷◌ 32) (trim-squeezed s)
              ∙ unwords-behind (words s) h.meant)
    ]
    | inr b ↦
        rw (b, trim-letter c (squeezed false s) b, trim-squeezed_on s)
          (sym (text-put_letter c (pieces s)))
  ]

-- What the loop leaves: the bytes written so far, those of the rest, and whatever stands behind.
record Left (out written s : List ℕ) (j : ℕ) : Type 0 where
  tail : List ℕ
  bytes : s ≡ out ++ (written ++ tail)
  size : j ≡ length out + length written

-- The byte that the next write replaces, where the read byte `c` is the last one that may be lost.
gap_front :
    (gap : List ℕ) (c : ℕ)
    → (g : ℕ) × (gap' : List ℕ) × (length gap' ≡ length gap)
      × ((rest : List ℕ) → gap ++ c ∷ rest ≡ g ∷ (gap' ++ rest))
gap_front [] c = (c, [], refl, λ rest. refl)
gap_front (g ∷ gap) c =
    let (g', gap', size, e) = gap_front gap c in
    (g, g' ∷ gap', ap suc size, λ rest. ap (◌∷◌ g) (e rest))

get_or-middle : (xs ys : List ℕ) (c : ℕ) → get_or (xs ++ c ∷ ys) (length xs) 0 ≡ c
get_or-middle [] ys c = refl
get_or-middle (x ∷ xs) ys c = get_or-middle xs ys c

get_or_end : (xs : List ℕ) → get_or xs (length xs) 0 ≡ 0
get_or_end [] = refl
get_or_end (x ∷ xs) = get_or_end xs

-- A byte written counts as one of those before.
Left-write :
    (out w : List ℕ) (v : ℕ) (s : List ℕ) (j : ℕ)
    → Left (out ++ v ∷ []) w s j
    → Left out (v ∷ w) s j
Left-write out w v s j l = record {
  tail = l.tail;
  bytes = l.bytes ∙ append_assoc out (v ∷ []) (w ++ l.tail);
  size = omega (arith, l.size, length-append {0} out (v ∷ []));
}

-- The buffer behind a write at `j`, which takes the place of the byte that was read before it.
module _ (out gap rest s : List ℕ) (c v i j : ℕ) (e : s ≡ out ++ (gap ++ c ∷ rest))
    (ei : i ≡ length (out ++ gap)) (ej : j ≡ length out) where
  write_lem :
      (gap' : List ℕ) × (set s j v ≡ (out ++ v ∷ []) ++ (gap' ++ rest))
      × (suc i ≡ length ((out ++ v ∷ []) ++ gap'))
      × (suc j ≡ length (out ++ v ∷ []))
  write_lem =
      let (g, gap', size, front) = gap_front gap c in
      (
        gap',
        rw (e, front rest, ej, append_assoc out (v ∷ []) (gap' ++ rest))
            (set-middle out (gap' ++ rest) g v),
        omega (
          arith,
          ei,
          size,
          length-append {0} out gap,
          length-append {0} out (v ∷ []),
          length-append {0} (out ++ v ∷ []) gap',
        ),
        omega (arith, ej, length-append {0} out (v ∷ [])),
      )

  skip_lem : (s ≡ out ++ ((gap ++ c ∷ []) ++ rest)) × (suc i ≡ length (out ++ (gap ++ c ∷ [])))
  skip_lem = (
    rw (e, append_assoc gap (c ∷ []) rest) refl,
    omega (
      arith,
      ei,
      length-append {0} out gap,
      length-append {0} gap (c ∷ []),
      length-append {0} out (gap ++ c ∷ []),
    ),
  )

  read_lem : get_or s i 0 ≡ c
  read_lem = rw (e, ei, ← append_assoc out gap (c ∷ rest)) (get_or-middle (out ++ gap) rest c)

squeeze_loop_lem :
    (r : ℕ) (sp : Bool) (out gap rest s : List ℕ) (i j : ℕ)
    → s ≡ out ++ (gap ++ rest)
    → i ≡ length (out ++ gap)
    → j ≡ length out
    → length rest ≤ r
    → Left out (squeezed sp (c_string rest)) (squeeze_loop r s i j sp).0 (squeeze_loop r s i j sp).1
unfolding squeeze_loop squeezed
squeeze_loop_lem zero sp out gap [] s i j e ei ej h = record {
  tail = gap;
  bytes = rw (e, append-nil gap) refl;
  size = omega arith;
}
squeeze_loop_lem zero sp out gap (c ∷ rest) s i j e ei ej h = absurd (omega arith)
squeeze_loop_lem (suc r) sp out gap [] s i j e ei ej h =
    let ended : get_or s i 0 ≡ 0 = rw (e, ei, append-nil gap) (get_or_end (out ++ gap)) in
    rw ended (record { tail = gap; bytes = rw (e, append-nil gap) refl; size = omega arith })
squeeze_loop_lem (suc r) sp out gap (c ∷ rest) s i j e ei ej h =
    let read = read_lem out gap rest s c 0 i j e ei ej in
    let (skip, skip_i) = skip_lem out gap rest s c 0 i j e ei ej in
    let (gs, es, is, js) = write_lem out gap rest s c 32 i j e ei ej in
    let (gl, el, il, jl) = write_lem out gap rest s c c i j e ei ej in
    elim (Bool-cases (c == 0)) [
      | inl z ↦ rw (read, z) (record { tail = gap ++ c ∷ rest; bytes = e; size = omega arith })
      | inr z ↦ elim (Bool-cases (is_blank c)) [
        | inl b ↦ elim (Bool-cases sp) [
          | inl y ↦
              rw (read, z, b, y)
                (squeeze_loop_lem r true out (gap ++ c ∷ []) rest s (suc i) j skip skip_i ej
                  (omega arith))
          | inr y ↦
              rw (read, z, b, y)
                (Left-write out (squeezed true (c_string rest)) 32 _ _ (
                  squeeze_loop_lem r true (out ++ 32 ∷ []) gs rest (set s j 32) (suc i) (suc j) es
                    is js (omega arith)))
        ]
        | inr b ↦
            rw (read, z, b)
              (Left-write out (squeezed false (c_string rest)) c _ _ (
                squeeze_loop_lem r false (out ++ c ∷ []) gl rest (set s j c) (suc i) (suc j) el il
                  jl (omega arith)))
      ]
    ]

abbrev pub HasNoNul : List ℕ → Type 0
HasNoNul [] = Unit
HasNoNul (c ∷ s) = (c ≢ 0) × HasNoNul s

squeezed-HasNoNul : (sp : Bool) (s : List ℕ) → HasNoNul (squeezed sp (c_string s))
unfolding squeezed
squeezed-HasNoNul sp [] = tt
squeezed-HasNoNul sp (c ∷ s) = ground (arith, squeezed-HasNoNul (is_blank c) s)

pub c_string-cut : (xs ys : List ℕ) → HasNoNul xs → c_string (set (xs ++ ys) (length xs) 0) ≡ xs
c_string-cut [] [] h = refl
c_string-cut [] (y ∷ ys) h = refl
c_string-cut (x ∷ xs) ys h = ground (arith, c_string-cut xs ys h.1)

end_squeezed_lem :
    (xs ys : List ℕ) → HasNoNul xs → c_string (end_squeezed (xs ++ ys) (length xs)) ≡ trim xs
unfolding end_squeezed trim
end_squeezed_lem [] ys h = c_string-cut [] ys h
end_squeezed_lem (x ∷ []) ys h = ground (arith, c_string-cut (x ∷ []) ys h)
end_squeezed_lem (x ∷ y ∷ xs) ys h = ground (arith, end_squeezed_lem (y ∷ xs) ys h.1)

-- `remove_extra_spaces` leaves the words of its string, with one space between any two.
pub remove_extra_spaces-unwords :
    (s : List ℕ) → c_string (remove_extra_spaces s) ≡ unwords (words (c_string s))
unfolding remove_extra_spaces
remove_extra_spaces-unwords s =
    let left = squeeze_loop_lem (length s) true [] [] s s 0 0 refl refl refl (omega arith) in
    let xs = squeezed true (c_string s) in
    let size : (squeeze_loop (length s) s 0 0 true).1 ≡ length xs = omega (arith, left.size) in
    rw (left.bytes, size)
      (end_squeezed_lem xs left.tail (squeezed-HasNoNul true s) ∙ trim-squeezed (c_string s))
