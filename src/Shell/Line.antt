-- ===== src/Shell/Line.antt =====
-- A command line without a pipe is its words: the first one is the command, the others are its
-- arguments.
use tp2_so_2025q.Base.{
  ℕ, suc, ◌<◌, ◌≤◌, ◌≡◌, ◌≢◌, refl, ap, subst, ◌∙◌, false, none, some, List, [], ◌∷◌, ◌++◌, inl,
  inr, Bool-cases, arith, ◌==◌, length, set, drop, append-nil,
}
use tp2_so_2025q.Text.Compare.{c_string}
use tp2_so_2025q.Shell.{
  is_blank, max_args, strchr, skip_spaces, remove_extra_spaces, cut_at, args_behind,
  argument_strings, split_command,
}
use tp2_so_2025q.Shell.Words.{
  put_letter, pieces, non_empty, words, behind, unwords, AreLetters, AreWords,
}
use tp2_so_2025q.Shell.Squeeze.{remove_extra_spaces-unwords}
use tp2_so_2025q.Shell.Arguments.{
  argument_strings-unwords, c_string-cons, c_string-nil, letter-ne_space,
}

AllLetters : List (List ℕ) → Type 0
AllLetters [] = Unit
AllLetters (w ∷ ws) = AreLetters w × AllLetters ws

put_letter-AllLetters :
    (c : ℕ) (ps : List (List ℕ))
    → c ≢ 0
    → is_blank c ≡ false
    → AllLetters ps
    → AllLetters (put_letter c ps)
unfolding AllLetters
put_letter-AllLetters c [] z b h = ((z, b, tt), tt)
put_letter-AllLetters c (w ∷ ws) z b h = ((z, b, h.0), h.1)

pieces-AllLetters : (s : List ℕ) → AllLetters (pieces (c_string s))
unfolding pieces AllLetters
pieces-AllLetters [] = (tt, tt)
pieces-AllLetters (c ∷ s) = elim (Bool-cases (c == 0)) [
  | inl z ↦ rw z (tt, tt)
  | inr z ↦ elim (Bool-cases (is_blank c)) [
    | inl b ↦ rw (z, b) (tt, pieces-AllLetters s)
    | inr b ↦
        rw (z, b)
          (put_letter-AllLetters c (pieces (c_string s)) (ground arith) b (pieces-AllLetters s))
  ]
]

non_empty-AreWords : (ws : List (List ℕ)) → AllLetters ws → AreWords (non_empty ws)
unfolding AllLetters
non_empty-AreWords [] h = tt
non_empty-AreWords ([] ∷ ws) h = non_empty-AreWords ws h.1
non_empty-AreWords ((c ∷ w) ∷ ws) h = (cc, h.0, non_empty-AreWords ws h.1)

pub words-AreWords : (s : List ℕ) → AreWords (words (c_string s))
unfolding words
words-AreWords s = non_empty-AreWords (pieces (c_string s)) (pieces-AllLetters s)

-- One word has no space in it.
strchr-one_word : (b w : List ℕ) → c_string b ≡ w → AreLetters w → strchr b 32 ≡ none
unfolding strchr
strchr-one_word [] w e l = refl
strchr-one_word (c ∷ b) [] e l = rw (c_string-nil c b e) refl
strchr-one_word (c ∷ b) (x ∷ w) e l =
    let (z, same, more) = c_string-cons c x b w e in
    rw (z, letter-ne_space c (rw same l.1), strchr-one_word b w more l.2) refl

-- The first space of several words stands behind the first one.
record Split (b w : List ℕ) (ws : List (List ℕ)) : Type 0 where
  at : strchr b 32 ≡ some (length w)
  name : c_string (set b (length w) 0) ≡ w
  rest : c_string (drop (suc (length w)) b) ≡ unwords ws

strchr-Split :
    (b w : List ℕ) (ws : List (List ℕ))
    → c_string b ≡ w ++ 32 ∷ unwords ws
    → AreLetters w
    → Split b w ws
unfolding strchr
strchr-Split [] [] ws e l = cc
strchr-Split [] (x ∷ w) ws e l = cc
strchr-Split (c ∷ b) [] ws e l =
    let (z, same, more) = c_string-cons c 32 b (unwords ws) e in
    record { at = ground arith; name = refl; rest = more }
strchr-Split (c ∷ b) (x ∷ w) ws e l =
    let (z, same, more) = c_string-cons c x b (w ++ 32 ∷ unwords ws) e in
    let split = strchr-Split b w ws more l.2 in
    record {
      at = rw (z, letter-ne_space c (rw same l.1), split.at) refl;
      name = rw z (λ i. same i ∷ split.name i);
      rest = split.rest;
    }

skip_spaces-word :
    (s w : List ℕ) (ws : List (List ℕ))
    → c_string s ≡ unwords (w ∷ ws)
    → w ≢ []
    → AreLetters w
    → skip_spaces s ≡ s
unfolding skip_spaces
skip_spaces-word s [] ws e ne l = absurd (ne refl)
skip_spaces-word [] (x ∷ w) ws e ne l = refl
skip_spaces-word (c ∷ s) (x ∷ w) ws e ne l =
    let (z, same, more) = c_string-cons c x s (w ++ behind ws) e in
    rw (letter-ne_space c (rw same l.1)) refl

split_text :
    (b w : List ℕ) (ws : List (List ℕ))
    → c_string b ≡ unwords (w ∷ ws)
    → AreWords (w ∷ ws)
    → length ws < max_args
    → (c_string (cut_at b (strchr b 32)) ≡ w)
      × (argument_strings (args_behind b (strchr b 32)) ≡ ws)
unfolding cut_at argument_strings args_behind
split_text b w [] e l h =
    let none_left = strchr-one_word b w (e ∙ append-nil w) l.1 in
    rw none_left (e ∙ append-nil w, refl)
split_text b w (v ∷ ws) e l h =
    let split = strchr-Split b w (v ∷ ws) e l.1 in
    rw split.at (
      split.name,
      ap (λ s. argument_strings (some s))
            (skip_spaces-word (drop (suc (length w)) b) v ws split.rest l.2.0 l.2.1)
          ∙ argument_strings-unwords (drop (suc (length w)) b) (v ∷ ws) split.rest l.2 h,
    )

-- The command and the arguments that words stand for.
abbrev pub command : List (List ℕ) → List ℕ × List (List ℕ)
command [] = ([], [])
command (w ∷ ws) = (w, ws)

pub split_words :
    (line : List ℕ) (ws : List (List ℕ))
    → words (c_string line) ≡ ws
    → length ws ≤ max_args
    → split_command line ≡ command ws
unfolding split_command
split_words line [] e h =
    let b = remove_extra_spaces line in
    let empty = remove_extra_spaces-unwords line ∙ ap unwords e in
    let no_space = strchr-one_word b [] empty tt in rw no_space (λ i. (empty i, []))
split_words line (w ∷ ws) e h =
    let b = remove_extra_spaces line in
    let parts =
      split_text b w ws (remove_extra_spaces-unwords line ∙ ap unwords e)
        (subst AreWords e (words-AreWords line)) (omega arith) in
    λ i. (parts.0 i, parts.1 i)

-- A line of at most ten words: the first word is the command, and the others are its arguments.
pub split_command-words :
    (line : List ℕ)
    → length (words (c_string line)) ≤ max_args
    → split_command line ≡ command (words (c_string line))
split_command-words line h = split_words line (words (c_string line)) refl h
