-- ===== src/Shell/Words.antt =====
-- What a line of the shell means: its words.
use tp2_so_2025q.Base.{ℕ, ◌≢◌, ◌≡◌, false, List, [], ◌∷◌, ◌++◌, if◌then◌else◌}
use tp2_so_2025q.Shell.{is_blank}

abbrev pub put_letter : ℕ → List (List ℕ) → List (List ℕ)
put_letter c [] = (c ∷ []) ∷ []
put_letter c (w ∷ ws) = (c ∷ w) ∷ ws

-- The pieces between the blanks, the empty ones included.
unfoldable pub pieces : List ℕ → List (List ℕ)
unfolding is_blank
pieces [] = [] ∷ []
pieces (c ∷ s) = let rest = pieces s in if is_blank c then [] ∷ rest else put_letter c rest

abbrev pub non_empty : List (List ℕ) → List (List ℕ)
non_empty [] = []
non_empty ([] ∷ ws) = non_empty ws
non_empty ((c ∷ w) ∷ ws) = (c ∷ w) ∷ non_empty ws

unfoldable pub words : List ℕ → List (List ℕ)
unfolding pieces
words s = non_empty (pieces s)

-- Words, each behind a space.
abbrev pub behind : List (List ℕ) → List ℕ
behind [] = []
behind (w ∷ ws) = 32 ∷ (w ++ behind ws)

-- The words with one space between any two.
abbrev pub unwords : List (List ℕ) → List ℕ
unwords [] = []
unwords (w ∷ ws) = w ++ behind ws

-- Letters: no blank and no NUL.
abbrev pub AreLetters : List ℕ → Type 0
AreLetters [] = Unit
AreLetters (c ∷ w) = (c ≢ 0) × (is_blank c ≡ false) × AreLetters w

abbrev pub AreWords : List (List ℕ) → Type 0
AreWords [] = Unit
AreWords (w ∷ ws) = (w ≢ []) × AreLetters w × AreWords ws
