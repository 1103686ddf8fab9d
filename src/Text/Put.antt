-- ===== src/Text/Put.antt =====
-- What `put_chars` leaves in a buffer that is large enough.
use tp2_so_2025q.Base.{ℕ, ◌≤◌, ◌≡◌, refl, some, List, [], ◌∷◌, ◌++◌, arith, length}
use tp2_so_2025q.Text.{cons_some}
use tp2_so_2025q.Text.Digits.{put_chars}

pub put_chars-append :
    (cs dest : List ℕ)
    → length cs ≤ length dest
    → (rest : List ℕ) × (put_chars cs dest ≡ some (cs ++ rest))
unfolding put_chars cons_some
put_chars-append [] [] h = ([], refl)
put_chars-append [] (d ∷ dest) h = (d ∷ dest, refl)
put_chars-append (c ∷ cs) [] h = absurd (omega arith)
put_chars-append (c ∷ cs) (d ∷ dest) h =
    let (rest, e) = put_chars-append cs dest (omega arith) in (rest, rw e refl)
