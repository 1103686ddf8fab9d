-- ===== src/Text/Tests.antt =====
-- The string functions on small buffers.
use tp2_so_2025q.Base.{◌≡◌, ◌↔◌, [], ◌∷◌, arith, length}
use tp2_so_2025q.Text.{codes, strcmp, strlen}
use tp2_so_2025q.Text.Compare.{c_string, strcmp-zero_iff, strlen-length}

strcmp-zero_iff_example :
    (strcmp (codes "ab") (97 ∷ 98 ∷ 0 ∷ 7 ∷ []) ≡ 0)
    ↔ (c_string (codes "ab") ≡ c_string (97 ∷ 98 ∷ 0 ∷ 7 ∷ []))
strcmp-zero_iff_example =
    strcmp-zero_iff (codes "ab") (97 ∷ 98 ∷ 0 ∷ 7 ∷ []) (omega arith, (omega arith, tt))
      (omega arith, (omega arith, (omega arith, (omega arith, tt))))

strlen-length_example : strlen (97 ∷ 98 ∷ 0 ∷ 7 ∷ []) ≡ length (c_string (97 ∷ 98 ∷ 0 ∷ 7 ∷ []))
strlen-length_example = strlen-length (97 ∷ 98 ∷ 0 ∷ 7 ∷ [])
