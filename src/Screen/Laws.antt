-- ===== src/Screen/Laws.antt =====
-- `write_out` comes to its end, and the cursor stays on the screen.
use tp2_so_2025q.Base.{
  ℕ, zero, suc, ◌*◌, ◌≤◌, ◌<◌, ◌≡◌, refl, ◌∙◌, true, false, some, List, [], ◌∷◌, inl, inr, ◌||◌,
  Bool-cases, arith, not, ◌==◌, length, length-set,
}
use tp2_so_2025q.Text.Compare.{c_string}
use tp2_so_2025q.Screen.{
  Display, Screen, vert_size, row_size, put_cell, new_line, put_char, write_loop, write_out,
}

module _ {W : Type 0} where
  -- The cursor is on the lines that are there, and a line has room for a character and a NUL.
  pub record IsOnScreen (sc : Screen W) : Type 0 where
    pub wide : 2 ≤ sc.line_size
    pub fits : sc.line_size ≤ row_size
    pub column : sc.cursor_x < sc.line_size
    pub row : sc.cursor_y < vert_size
    pub limit : sc.limit_index < vert_size
    pub rows : length sc.screen_buffer ≡ vert_size

  module _ (display : Display W) where
    put_cell-IsOnScreen :
        (c : ℕ) (sc : Screen W) → IsOnScreen sc → IsOnScreen (put_cell display c sc)
    unfolding put_cell
    put_cell-IsOnScreen c sc s = record {
      wide = s.wide;
      fits = s.fits;
      column = s.column;
      row = s.row;
      limit = s.limit;
      rows = length-set sc.screen_buffer sc.cursor_y _ ∙ s.rows;
    }

    new_line-IsOnScreen : (sc : Screen W) → IsOnScreen sc → IsOnScreen (new_line display sc)
    unfolding new_line
    new_line-IsOnScreen sc s = elim (Bool-cases (sc.cursor_y == sc.limit_index)) [
      | inl e ↦ rw e (record {
        wide = s.wide;
        fits = s.fits;
        column = omega (arith, s.wide);
        row = omega arith;
        limit = omega arith;
        rows = s.rows;
      })
      | inr e ↦ rw e (record {
        wide = s.wide;
        fits = s.fits;
        column = omega (arith, s.wide);
        row = omega arith;
        limit = s.limit;
        rows = s.rows;
      })
    ]

    -- A new line starts in the first column, and a line is as long as before.
    new_line-start :
        (sc : Screen W)
        → ((new_line display sc).cursor_x ≡ 0) × ((new_line display sc).line_size ≡ sc.line_size)
    unfolding new_line
    new_line-start sc = (refl, ground arith)

    put_char-IsOnScreen :
        (c : ℕ) (sc : Screen W)
        → IsOnScreen sc
        → (suc sc.cursor_x == sc.line_size) ≡ false
        → IsOnScreen (put_char display c sc)
    unfolding put_char
    put_char-IsOnScreen c sc s room = record {
      wide = s.wide;
      fits = s.fits;
      column = ground (arith, s.column);
      row = s.row;
      limit = s.limit;
      rows = length-set sc.screen_buffer sc.cursor_y _ ∙ s.rows;
    }

    -- The loop on enough fuel ends on the screen.
    abbrev Ends : ℕ → List ℕ → Screen W → Type 0
    Ends fuel s sc = (sc' : Screen W) × (write_loop display fuel s sc ≡ some sc') × IsOnScreen sc'

    -- A character that is not at the end of its line, or ends the line itself, takes one round.
    write_loop-step :
        (fuel c : ℕ) (s : List ℕ) (sc : Screen W)
        → IsOnScreen sc
        → ((sc' : Screen W) → IsOnScreen sc' → Ends fuel s sc')
        → (c == 10) || (not (suc sc.cursor_x == sc.line_size)) ≡ true
        → Ends (suc fuel) (c ∷ s) sc
    unfolding write_loop
    write_loop-step fuel c s sc on rest one = elim (Bool-cases (c == 10)) [
      | inl e ↦
          let (sc', r, on') =
            rest (new_line display (put_cell display 0 sc))
              (new_line-IsOnScreen (put_cell display 0 sc) (put_cell-IsOnScreen 0 sc on)) in
          (
            sc',
            elim (Bool-cases (suc sc.cursor_x == sc.line_size)) [
              | inl full ↦ rw (full, e) r
              | inr more ↦ rw (more, e) r
            ],
            on',
          )
      | inr e ↦
          let room : (suc sc.cursor_x == sc.line_size) ≡ false = ground arith in
          let (sc', r, on') = rest (put_char display c sc) (put_char-IsOnScreen c sc on room) in
          (sc', rw (e, room) r, on')
    ]

    write_loop-nil : (fuel : ℕ) (sc : Screen W) → write_loop display fuel [] sc ≡ some sc
    unfolding write_loop
    write_loop-nil fuel sc = refl

    -- At the end of a line the character is tried again.
    write_loop-again :
        (fuel c : ℕ) (s : List ℕ) (sc : Screen W)
        → (suc sc.cursor_x == sc.line_size) ≡ true
        → (c == 10) ≡ false
        → write_loop display (suc fuel) (c ∷ s) sc
          ≡ write_loop display fuel (c ∷ s) (new_line display sc)
    unfolding write_loop
    write_loop-again fuel c s sc full plain = rw (full, plain) refl

    write_loop-Ends :
        (s : List ℕ) (fuel : ℕ) (sc : Screen W)
        → 2 * length s ≤ fuel
        → IsOnScreen sc
        → Ends fuel s sc
    write_loop-Ends [] fuel sc h on = (sc, write_loop-nil fuel sc, on)
    write_loop-Ends (c ∷ s) zero sc h on = absurd (omega arith)
    write_loop-Ends (c ∷ s) (suc zero) sc h on = absurd (omega arith)
    write_loop-Ends (c ∷ s) (suc (suc fuel)) sc h on =
        let enough : 2 * length s ≤ fuel = omega arith in
        elim (Bool-cases ((c == 10) || (not (suc sc.cursor_x == sc.line_size)))) [
          | inl one ↦
              write_loop-step (suc fuel) c s sc on
                (λ sc' on'. write_loop-Ends s (suc fuel) sc' (omega arith) on') one
          | inr two ↦
              let full : (suc sc.cursor_x == sc.line_size) ≡ true = ground arith in
              let plain : (c == 10) ≡ false = ground arith in
              let next = new_line display sc in
              let on' = new_line-IsOnScreen sc on in
              let (start, same) = new_line-start sc in
              let (sc', r, on'') =
                write_loop-step fuel c s next on' (λ t h. write_loop-Ends s fuel t enough h)
                  (ground (arith, start, same, on.wide)) in
              (sc', write_loop-again (suc fuel) c s sc full plain ∙ r, on'')
        ]

    -- With the cursor on the screen and lines of two columns or more, `write_out` comes to its end: the
    -- whole text is printed, and the cursor is on the screen.
    pub write_out_total :
        (string : List ℕ) (sc : Screen W)
        → IsOnScreen sc
        → (sc' : Screen W) × (w : W) × (write_out display string sc ≡ some sc')
          × (sc'.world ≡ display.print (c_string string) w)
          × IsOnScreen sc'
    unfolding write_out
    write_out_total string sc on =
        let text = c_string string in
        let (sc', r, on') = write_loop-Ends text (2 * length text) sc (omega arith) on in
        (
          record sc' { world = display.print text sc'.world },
          sc'.world,
          rw (r, write_out) refl,
          refl,
          record {
            wide = on'.wide;
            fits = on'.fits;
            column = on'.column;
            row = on'.row;
            limit = on'.limit;
            rows = on'.rows;
          },
        )
