-- ===== src/Screen.antt =====
-- Userland/userCodeModule/shell.c: the shell's copy of the screen, a ring of 32 lines. What the kernel
-- draws is the state of the interface `Display`.
pub mod Laws
mod Tests
use tp2_so_2025q.Base.{
  ℕ, zero, suc, ◌+◌, ◌-◌, ◌*◌, ◌/◌, ◌%◌, Bool, true, false, ◌||◌, Option, none, some, List, [], ◌∷◌,
  ◌==◌, if◌then◌else◌, length, get_or, set, add32, sub32, to_int, neg, is_negative,
}
use tp2_so_2025q.Text.{codes}
use tp2_so_2025q.Text.Compare.{c_string}

abbrev pub vert_size : ℕ
vert_size = 32

abbrev pub row_size : ℕ
row_size = 63

-- The calls of the kernel.
pub record Display (W : Type 0) : Type 0 where
  pub print : List ℕ → W → W
  pub clear_screen : W → W

pub record Screen (W : Type 0) : Type 0 where
  pub screen_buffer : List (List ℕ)
  pub cursor_x : ℕ
  pub cursor_y : ℕ
  pub limit_index : ℕ
  pub rows_to_show : ℕ
  pub line_size : ℕ
  pub world : W

-- C's remainder of a signed `int` by a positive one.
unfoldable pub remainder : ℕ → ℕ → ℕ
remainder a b = if is_negative a then to_int (neg (neg a % b)) else a % b

-- `mod` of userlib.c.
unfoldable pub modulo : ℕ → ℕ → ℕ
unfolding remainder
modulo val base = if is_negative val then remainder (add32 val base) base else remainder val base

module _ {W : Type 0} (display : Display W) where
  open display use {print, clear_screen}

  -- The loop of `shift` with the rounds left.
  unfoldable pub draw_rows : ℕ → ℕ → Screen W → W → W
  unfolding modulo
  draw_rows zero i sc w = w
  draw_rows (suc r) i sc w =
      let line_number =
        modulo (add32 i (add32 (sub32 sc.limit_index sc.rows_to_show) 1)) vert_size in
      let w' = print (get_or sc.screen_buffer line_number []) w in
      draw_rows r (suc i) sc (if suc i == sc.rows_to_show then w' else print (codes "\n") w')

  unfoldable pub shift : Screen W → Screen W
  unfolding draw_rows
  shift sc = record sc { world = draw_rows (sc.rows_to_show - 1) 1 sc (clear_screen sc.world) }

  -- The screen behind `check_shift`, which also answers whether the lines were shifted.
  unfoldable pub check_shift : Screen W → Screen W × Bool
  unfolding shift
  check_shift sc =
      let shifted = shift sc in
      if sc.cursor_y == sc.limit_index
      then (
        record shifted {
          limit_index = suc sc.limit_index % vert_size;
          cursor_y = suc sc.cursor_y % vert_size;
        },
        true,
      )
      else (record sc { cursor_y = suc sc.cursor_y % vert_size }, false)

  -- `screen_buffer[cursor_y][cursor_x] = c`.
  unfoldable pub put_cell : ℕ → Screen W → Screen W
  put_cell c sc = record sc {
    screen_buffer =
        set sc.screen_buffer sc.cursor_y
          (set (get_or sc.screen_buffer sc.cursor_y []) sc.cursor_x c);
  }

  unfoldable pub new_line : Screen W → Screen W
  unfolding check_shift
  new_line sc = record (check_shift sc).0 { cursor_x = 0 }

  unfoldable pub put_char : ℕ → Screen W → Screen W
  unfolding put_cell
  put_char c sc = record (put_cell c sc) { cursor_x = suc sc.cursor_x }

  -- The loop of `write_out` on fuel; `none` means that the fuel ran out. At the end of a line the same
  -- character is tried again on the next one.
  unfoldable pub write_loop : ℕ → List ℕ → Screen W → Option (Screen W)
  unfolding new_line put_char
  write_loop fuel [] sc = some sc
  write_loop zero (c ∷ s) sc = none
  write_loop (suc fuel) (c ∷ s) sc =
      let ended = write_loop fuel s (new_line (put_cell 0 sc)) in
      let again = write_loop fuel (c ∷ s) (new_line sc) in
      let next = write_loop fuel s (put_char c sc) in
      if (suc sc.cursor_x == sc.line_size) || (c == 10)
      then if c == 10 then ended else again
      else next

  -- Two rounds for each character are enough, as `write_out_total` shows.
  unfoldable pub write_out : List ℕ → Screen W → Option (Screen W)
  unfolding write_loop
  write_out string sc = elim (write_loop (2 * length (c_string string)) (c_string string) sc) [
    | none ↦ none
    | some sc' ↦ some (record sc' { world = print (c_string string) sc'.world })
  ]

  -- `VERT_SIZE / font_size` and `LINE_SIZE / font_size` of `init_shell`, for a size other than 0.
  unfoldable pub fit_font : ℕ → Screen W → Screen W
  fit_font font_size sc = record sc {
    rows_to_show = vert_size / font_size;
    line_size = row_size / font_size;
  }

  -- `comando_clean`, up to the end of its process.
  unfoldable pub clean : ℕ → Screen W → Screen W
  clean font_size sc = record sc {
    cursor_y = 0;
    cursor_x = 0;
    limit_index = vert_size / font_size - 1;
    world = clear_screen sc.world;
  }
