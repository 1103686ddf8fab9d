-- ===== src/Launch/Laws.antt =====
-- A line does what its text says: it is cut at `&` and `|`, and each side is its words.
use tp2_so_2025q.Base.{
  ℕ, zero, suc, ◌≤◌, ◌≡◌, ◌≢◌, refl, sym, ap, subst, ◌∙◌, Option, none, some, List, [], ◌∷◌, inl,
  inr, Option-cases, arith, ◌==◌, if◌then◌else◌, length, set, drop,
}
use tp2_so_2025q.Text.Compare.{c_string}
use tp2_so_2025q.Shell.{max_args, strchr, cut_at}
use tp2_so_2025q.Shell.Words.{words}
use tp2_so_2025q.Shell.Line.{command, split_words, split_command-words}
use tp2_so_2025q.Launch.{Calls, Shell, is_none, run_single, run_pipe, run_parts, process_command}

-- A text up to the first `c`, and what stands behind it.
abbrev pub before : ℕ → List ℕ → List ℕ
before c [] = []
before c (x ∷ s) = if x == c then [] else x ∷ before c s

abbrev pub after : ℕ → List ℕ → Option (List ℕ)
after c [] = none
after c (x ∷ s) = if x == c then some s else after c s

strchr-none :
    (b : List ℕ) (c : ℕ)
    → c ≢ 0
    → strchr b c ≡ none
    → (before c (c_string b) ≡ c_string b) × (after c (c_string b) ≡ none)
unfolding strchr
strchr-none [] c h e = (refl, refl)
strchr-none (x ∷ b) c h e = ground (arith, strchr-none b c)

strchr-some :
    (b : List ℕ) (c p : ℕ)
    → c ≢ 0
    → strchr b c ≡ some p
    → (c_string (set b p 0) ≡ before c (c_string b))
      × (after c (c_string b) ≡ some (c_string (drop (suc p) b)))
unfolding strchr
strchr-some [] c p h e = ground arith
strchr-some (x ∷ b) c zero h e = elim (Option-cases (strchr b c)) [
  | inl o ↦ ground arith
  | inr o ↦ ground (arith, o.1)
]
strchr-some (x ∷ b) c (suc p) h e = ground (arith, strchr-some b c p)

cut_at-before :
    (b : List ℕ) (c : ℕ) → c ≢ 0 → c_string (cut_at b (strchr b c)) ≡ before c (c_string b)
unfolding cut_at
cut_at-before b c h = elim (Option-cases (strchr b c)) [
  | inl o ↦ rw o (sym (strchr-none b c h o).0)
  | inr o ↦ rw o.1 (strchr-some b c o.0 h o.1).0
]

strchr-is_none :
    (b : List ℕ) (c : ℕ) → c ≢ 0 → is_none (strchr b c) ≡ is_none (after c (c_string b))
strchr-is_none b c h = elim (Option-cases (strchr b c)) [
  | inl o ↦ rw (o, (strchr-none b c h o).1) (unfold is_none in refl)
  | inr o ↦ rw (o.1, (strchr-some b c o.0 h o.1).1) (unfold is_none in refl)
]

-- The side behind `|`, if there is one, has at most nine arguments.
abbrev pub FitsBehind : Option (List ℕ) → Type 0
FitsBehind none = Unit
FitsBehind (some b) = length (words b) ≤ max_args

module _ {S : Type 0} (calls : Calls S) where
  -- What a text without `&` asks for.
  abbrev pub run_sides : List ℕ → Option (List ℕ) → Shell S → Shell S
  run_sides a none sh = run_single calls (command (words a)) sh
  run_sides a (some b) sh = run_pipe calls (command (words a)) (command (words b)) sh

  run_parts_lem :
      (buffer : List ℕ) (sh : Shell S)
      → length (words (before 124 (c_string buffer))) ≤ max_args
      → FitsBehind (after 124 (c_string buffer))
      → run_parts calls buffer (strchr buffer 124) sh
        ≡ run_sides (before 124 (c_string buffer)) (after 124 (c_string buffer)) sh
  unfolding run_parts
  run_parts_lem buffer sh small fits = elim (Option-cases (strchr buffer 124)) [
    | inl o ↦
        let (whole, nothing) = strchr-none buffer 124 (omega arith) o in
        rw (o, nothing, whole)
          (ap (λ c. run_single calls c sh)
            (split_command-words buffer (subst (λ t. length (words t) ≤ max_args) whole small)))
    | inr o ↦
        let (left, right) = strchr-some buffer 124 o.0 (omega arith) o.1 in
        let a =
          split_words (set buffer o.0 0) (words (before 124 (c_string buffer))) (ap words left)
            small in
        let b = split_command-words (drop (suc o.0) buffer) (subst FitsBehind right fits) in
        rw (o.1, right) (λ i. run_pipe calls (a i) (b i) sh)
  ]

  -- What a line does, where each of its commands has at most nine arguments: it is cut at the first
  -- `&`, which puts it into the background, and at the first `|` before that. The first word of a side
  -- is its command, and the others are the arguments.
  pub process_command-words :
      (line : List ℕ) (sh : Shell S)
      → length (words (before 124 (before 38 (c_string line)))) ≤ max_args
      → FitsBehind (after 124 (before 38 (c_string line)))
      → process_command calls line sh
        ≡ run_sides
            (before 124 (before 38 (c_string line)))
            (after 124 (before 38 (c_string line)))
            (record sh { foreground = is_none (after 38 (c_string line)) })
  unfolding process_command
  process_command-words line sh small fits =
      let text = cut_at-before line 38 (omega arith) in
      let buffer = cut_at line (strchr line 38) in
      let bg = strchr-is_none line 38 (omega arith) in
      run_parts_lem buffer (record sh { foreground = is_none (strchr line 38) }) (rw text small)
        (rw text fits)
      ∙ (λ i.
          run_sides (before 124 (text i)) (after 124 (text i)) (record sh { foreground = bg i }))
