-- ===== src/Screen/Tests.antt =====
-- A short text near the end of a line.
use tp2_so_2025q.Base.{ℕ, ◌≡◌, refl, Option, none, some, List, [], ◌∷◌, replicate, arith}
use tp2_so_2025q.Text.{codes}
use tp2_so_2025q.Text.Compare.{c_string}
use tp2_so_2025q.Screen.{Display, Screen, modulo, write_out}
use tp2_so_2025q.Screen.Laws.{IsOnScreen, write_out_total}

abbrev printing : Display (List (List ℕ))
printing = record { print = λ t w. t ∷ w; clear_screen = λ w. [] }

abbrev near_the_end : Screen (List (List ℕ))
near_the_end = record {
  screen_buffer = replicate 32 (replicate 63 0);
  cursor_x = 60;
  cursor_y = 4;
  limit_index = 31;
  rows_to_show = 32;
  line_size = 63;
  world = [];
}

cursor_of : Option (Screen (List (List ℕ))) → ℕ × ℕ
cursor_of none = (0, 0)
cursor_of (some sc) = (sc.cursor_x, sc.cursor_y)

wraps : cursor_of (write_out printing (codes "abcd") near_the_end) ≡ (2, 5)
unfolding write_out cursor_of
wraps = refl

-- -3 and 35 are lines 29 and 3 of the ring.
modulo_below : modulo 4294967293 32 ≡ 29
unfolding modulo
modulo_below = refl

write_out_total_example :
    (sc' : Screen (List (List ℕ))) × (w : List (List ℕ)) × (write_out printing
        (codes "abcd")
        near_the_end
      ≡ some sc')
    × (sc'.world ≡ printing.print (c_string (codes "abcd")) w)
    × IsOnScreen sc'
write_out_total_example = write_out_total printing (codes "abcd") near_the_end (record {
  wide = omega arith;
  fits = omega arith;
  column = omega arith;
  row = omega arith;
  limit = omega arith;
  rows = refl;
})
