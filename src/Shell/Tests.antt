-- ===== src/Shell/Tests.antt =====
-- Lines and their words.
use tp2_so_2025q.Base.{◌≡◌, refl, [], ◌∷◌}
use tp2_so_2025q.Text.{codes}
use tp2_so_2025q.Text.Compare.{c_string}
use tp2_so_2025q.Shell.{remove_extra_spaces, split_command}
use tp2_so_2025q.Shell.Words.{words, unwords}
use tp2_so_2025q.Shell.Squeeze.{remove_extra_spaces-unwords}

-- Behind the eighth argument the rest of the line is the ninth one.
many_arguments : split_command (codes "a 1 2 3 4 5 6 7 8 9 10") ≡ (
  codes "a",
  codes "1"
      ∷ codes "2"
      ∷ codes "3"
      ∷ codes "4"
      ∷ codes "5"
      ∷ codes "6"
      ∷ codes "7"
      ∷ codes "8"
      ∷ codes "9 10"
      ∷ [],
)
unfolding split_command
many_arguments = refl

remove_extra_spaces-unwords_example :
    c_string (remove_extra_spaces (codes " nice  12 7 "))
    ≡ unwords (words (c_string (codes " nice  12 7 ")))
remove_extra_spaces-unwords_example = remove_extra_spaces-unwords (codes " nice  12 7 ")
