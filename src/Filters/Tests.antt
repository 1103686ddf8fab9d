-- ===== src/Filters/Tests.antt =====
-- Short inputs of the filters.
use tp2_so_2025q.Base.{ℕ, ◌≡◌, refl, arith, true, some, List, [], ◌∷◌, ◌++◌, replicate}
use tp2_so_2025q.Text.{codes}
use tp2_so_2025q.Filters.{wc_dummy, cat_dummy, filter_dummy}
use tp2_so_2025q.Filters.Lines.{unlines, filters-lines}

abbrev two_lines : List ℕ
two_lines = codes "uno" ++ 10 ∷ codes "dos"

counted :
    wc_dummy true (replicate 12 7) two_lines 0
    ≡ some (two_lines ++ 10 ∷ codes "Cantidad de lineas: 2." ++ 10 ∷ [])
unfolding wc_dummy
counted = refl

shown :
    cat_dummy true two_lines
    ≡ codes "uno" ++ 10 ∷ codes "uno" ++ 10 ∷ codes "dos" ++ 10 ∷ codes "dos" ++ 10 ∷ []
unfolding cat_dummy
shown = refl

-- A character that is taken back is still written.
taken_back :
    filter_dummy true (codes "ae" ++ 8 ∷ codes "i" ++ 10 ∷ [])
    ≡ codes "ae" ++ 8 ∷ codes "i" ++ 10 ∷ codes "ai" ++ 10 ∷ []
unfolding filter_dummy
taken_back = refl

filters-lines_example :
    (cat_dummy true (unlines ((101 ∷ 120 ∷ []) ∷ [] ∷ []) ++ 97 ∷ [])
      ≡ 101 ∷ 120 ∷ 10 ∷ 101 ∷ 120 ∷ 10 ∷ 10 ∷ 10 ∷ 97 ∷ 10 ∷ 97 ∷ 10 ∷ [])
    × (filter_dummy true (unlines ((101 ∷ 120 ∷ []) ∷ [] ∷ []) ++ 97 ∷ [])
        ≡ 101 ∷ 120 ∷ 10 ∷ 101 ∷ 10 ∷ 10 ∷ 10 ∷ 97 ∷ 97 ∷ 10 ∷ [])
filters-lines_example = filters-lines ((101 ∷ 120 ∷ []) ∷ [] ∷ []) (97 ∷ []) (
  (omega arith, omega arith, omega arith, tt),
  omega arith,
  (
    (omega arith, omega arith, omega arith, (omega arith, omega arith, omega arith, tt)),
    omega arith,
    (tt, omega arith, tt),
  ),
)
