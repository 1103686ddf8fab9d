-- ===== src/Shell/Arguments.antt =====
-- `parse_arguments` on a text of words gives these words back.
use tp2_so_2025q.Base.{
  ℕ, suc, ◌+◌, ◌-◌, ◌<◌, ◌≡◌, refl, ap, ◌∙◌, true, false, some, List, [], ◌∷◌, ◌++◌, inl, inr,
  Bool-cases, arith, ◌==◌, ltb, length, map, drop, append-nil,
}
use tp2_so_2025q.Text.Compare.{c_string}
use tp2_so_2025q.Shell.{is_blank, args_loop, strings_at, max_args, argument_strings}
use tp2_so_2025q.Shell.Words.{behind, unwords, AreLetters, AreWords}

strings_at-put_before :
    (c : ℕ) (s : List ℕ) (ps : List ℕ) → strings_at (c ∷ s) (map suc ps) ≡ strings_at s ps
unfolding strings_at
strings_at-put_before c s [] = refl
strings_at-put_before c s (p ∷ ps) = ap (◌∷◌ (c_string (drop p s))) (strings_at-put_before c s ps)

pub letter-ne_space : (c : ℕ) → is_blank c ≡ false → (c == 32) ≡ false
unfolding is_blank
letter-ne_space c h = ground arith

-- The first byte of a string that is not empty.
pub c_string-cons :
    (c x : ℕ) (s t : List ℕ)
    → c_string (c ∷ s) ≡ x ∷ t
    → ((c == 0) ≡ false) × (c ≡ x) × (c_string s ≡ t)
c_string-cons c x s t e = ground arith

pub c_string-nil : (c : ℕ) (s : List ℕ) → c_string (c ∷ s) ≡ [] → (c == 0) ≡ true
c_string-nil c s e = ground arith

nil_of_length : (ws : List (List ℕ)) → length ws ≡ 0 → ws ≡ []
nil_of_length [] h = refl
nil_of_length (w ∷ ws) h = absurd (omega arith)

-- Inside a word, or behind it: the loop leaves the word, and points at each word behind it.
args_loop_lem :
    (s w : List ℕ) (ws : List (List ℕ)) (argc : ℕ)
    → c_string s ≡ w ++ behind ws
    → AreLetters w
    → AreWords ws
    → argc + length ws < max_args
    → (c_string (args_loop false argc s).0 ≡ w)
      × (strings_at (args_loop false argc s).0 (args_loop false argc s).1 ≡ ws)
unfolding args_loop strings_at
args_loop_lem [] [] [] argc e lw lws h = (refl, refl)
args_loop_lem [] [] (w ∷ ws) argc e lw lws h = cc
args_loop_lem [] (x ∷ w) ws argc e lw lws h = cc
args_loop_lem (c ∷ s) [] [] argc e lw lws h = rw (c_string-nil c s e) (e, refl)
args_loop_lem (c ∷ s) (x ∷ w) ws argc e lw lws h =
    let (z, same, more) = c_string-cons c x s (w ++ behind ws) e in
    let letter : (c == 32) ≡ false = letter-ne_space c (rw same lw.1) in
    elim (Bool-cases (ltb argc (max_args - 1))) [
      | inl room ↦
          let (word, others) = args_loop_lem s w ws argc more lw.2 lws h in
          rw (z, room, letter)
            (
              rw z (λ i. same i ∷ word i),
              strings_at-put_before c (args_loop false argc s).0 (args_loop false argc s).1
                  ∙ others,
            )
      | inr full ↦
          let none_left : ws ≡ [] = nil_of_length ws (ground arith) in
          rw (z, full, none_left)
            (
              e ∙ ap (λ (v : List (List ℕ)). (x ∷ w) ++ behind v) none_left ∙ append-nil (x ∷ w),
              refl,
            )
    ]
args_loop_lem (c ∷ s) [] ([] ∷ ws) argc e lw lws h = absurd (lws.0 refl)
args_loop_lem (c ∷ []) [] ((x ∷ w) ∷ ws) argc e lw lws h =
    cc ((c_string-cons c 32 [] ((x ∷ w) ++ behind ws) e).2)
args_loop_lem (c ∷ d ∷ s) [] ((x ∷ w) ∷ ws) argc e lw lws h =
    let (z, same, more) = c_string-cons c 32 (d ∷ s) ((x ∷ w) ++ behind ws) e in
    let (z', same', more') = c_string-cons d x s (w ++ behind ws) more in
    let space : (c == 32) ≡ true = ground arith in
    let letter : (d == 32) ≡ false = letter-ne_space d (rw same' lws.1.1) in
    let room : ltb argc (max_args - 1) ≡ true = ground arith in
    let rest = args_loop false (suc argc) s in
    let (word, others) = args_loop_lem s w ws (suc argc) more' lws.1.2 lws.2 (omega arith) in
    rw (z, room, space, z', letter)
      (
        refl,
        rw z' (λ i.
            (same' i ∷ word i)
            ∷ (strings_at-put_before 0 (d ∷ rest.0) (map suc rest.1)
                  ∙ strings_at-put_before d rest.0 rest.1
                  ∙ others)
                i),
      )

argument_strings-text :
    (c : ℕ) (s : List ℕ)
    → (c == 0) ≡ false
    → argument_strings (some (c ∷ s))
      ≡ c_string (args_loop false 1 (c ∷ s)).0
        ∷ strings_at (args_loop false 1 (c ∷ s)).0 (args_loop false 1 (c ∷ s)).1
unfolding argument_strings
argument_strings-text c s z = rw z refl

-- `parse_arguments` on words with one space between any two, at most nine of them, points at these
-- words. With NULL or an empty string there are none.
pub argument_strings-unwords :
    (s : List ℕ) (ws : List (List ℕ))
    → c_string s ≡ unwords ws
    → AreWords ws
    → length ws < max_args
    → argument_strings (some s) ≡ ws
unfolding argument_strings
argument_strings-unwords [] [] e lws h = refl
argument_strings-unwords [] ([] ∷ ws) e lws h = absurd (lws.0 refl)
argument_strings-unwords [] ((x ∷ w) ∷ ws) e lws h = cc
argument_strings-unwords (c ∷ s) [] e lws h = rw (c_string-nil c s e) refl
argument_strings-unwords (c ∷ s) ([] ∷ ws) e lws h = absurd (lws.0 refl)
argument_strings-unwords (c ∷ s) ((x ∷ w) ∷ ws) e lws h =
    let (word, others) = args_loop_lem (c ∷ s) (x ∷ w) ws 1 e lws.1 lws.2 (omega arith) in
    let (z, _, _) = c_string-cons c x s (w ++ behind ws) e in
    argument_strings-text c s z ∙ λ i. word i ∷ others i
