-- ===== src/Terminal/Tape.antt =====
-- An abstract terminal: an unbounded tape of cells that never scrolls. The screen is a window of 25
-- rows on it.
use low_flex_programming.Base.{
  ℕ, ◌+◌, ◌-◌, ◌*◌, ◌/◌, ◌%◌, ◌≤◌, ◌<◌, ◌≡◌, refl, ◌==◌, ltb, if◌then◌else◌, arith, List, [], ◌∷◌,
  ◌++◌, length, ok, inl, inr, Bool-cases,
}
use native.Mathlib.Decide.{dec_lt}
use low_flex_programming.Common.{Memory, write}
use low_flex_programming.EventBus.{Bus, event_key_press, register_event_callback}
use low_flex_programming.Terminal.{
  Terminal, vga_entry, terminal_shift_buffer, next_row, advance, terminal_putentryat,
  terminal_putchar_color, write_loop, terminal_write, vga_entry_color, vga_color_light_grey,
  vga_color_black, terminal_initialize, clear_rows,
}
use low_flex_programming.Terminal.Screen.{vga_index_lem, shift_lem, cells, clear_rows_lem}
use low_flex_programming.Terminal.Cursor.{
  next_row_down, next_row_scroll, advance_step, advance_wrap, next_row_column,
}

pub record Tape : Type 0 where
  pub pos : ℕ
  pub cell : Memory

-- A line feed goes to the start of the next row, a carriage return to the start of this one, and
-- any other character is written at the position.
unfoldable pub put : Tape → ℕ → ℕ → Tape
put s c color =
    if c == b'\n'
    then record s { pos = (s.pos / 80 + 1) * 80 }
    else if c == b'\r'
    then record s { pos = s.pos / 80 * 80 }
    else record { pos = s.pos + 1; cell = write s.cell s.pos (vga_entry c color) }

unfoldable pub put_all : Tape → List ℕ → ℕ → Tape
put_all s [] color = s
put_all s (c ∷ text) color = put_all (put s c color) text color

-- The first row of the tape that is on the screen.
abbrev pub top : Tape → ℕ
top s = s.pos / 80 - 24

-- The screen shows the rows from `top s` on, with the cursor at the tape's position; what the tape
-- has below the screen is the row of cells behind the video page, again and again.
pub record Shows (t : Terminal) (s : Tape) : Type 0 where
  pub in_row : t.row < 25
  pub in_column : t.column < 80
  pub place : s.pos ≡ 80 * (top s + t.row) + t.column
  pub window : (j : ℕ) → j < cells → t.buffer j ≡ s.cell (80 * top s + j)
  pub margin : (i : ℕ) → 80 * (top s + 25) ≤ i → s.cell i ≡ t.buffer (cells + i % 80)

-- The terminal after a step below the last row, before and after the scroll.
abbrev fallen : Terminal → Terminal
fallen t = record t { row = 25; column = 0 }

scrolled_cursor :
    (t : Terminal)
    → ((terminal_shift_buffer (fallen t)).row ≡ 24)
      × ((terminal_shift_buffer (fallen t)).column ≡ 0)
unfolding terminal_shift_buffer
scrolled_cursor t = (refl, refl)

Shows-next_row :
    (t : Terminal) (s : Tape)
    → Shows t s
    → Shows (next_row t) (record s { pos = (s.pos / 80 + 1) * 80 })
Shows-next_row t s h = elim (dec_lt t.row 24) [
  | yes p ↦ rw (next_row_down t p) (record {
    in_row = omega arith;
    in_column = omega arith;
    place = omega arith;
    window = λ j hj. grind (arith, h.window);
    margin = λ i hi. grind (arith, h.margin);
  })
  | no p ↦ rw (next_row_scroll t (omega arith)) (record {
    in_row = omega (arith, scrolled_cursor t);
    in_column = omega (arith, scrolled_cursor t);
    place = omega (arith, scrolled_cursor t);
    window = λ j hj.
        ground (arith, shift_lem (fallen t) j, h.window (j + 80), h.margin (80 * top s + 80 + j));
    margin = λ i hi. ground (arith, shift_lem (fallen t) (cells + i % 80), h.margin i);
  })
]

Shows-return :
    (t : Terminal) (s : Tape)
    → Shows t s
    → Shows (record t { column = 0 }) (record s { pos = s.pos / 80 * 80 })
Shows-return t s h = record {
  in_row = omega arith;
  in_column = omega arith;
  place = omega arith;
  window = λ j hj. grind (arith, h.window);
  margin = λ i hi. grind (arith, h.margin);
}

Shows-putentryat :
    (t : Terminal) (s : Tape) (c color : ℕ)
    → Shows t s
    → Shows
        (terminal_putentryat t c color t.column t.row)
        (record s { cell = write s.cell s.pos (vga_entry c color) })
unfolding terminal_putentryat write
Shows-putentryat t s c color h = record {
  in_row = omega arith;
  in_column = omega arith;
  place = omega arith;
  window = λ j hj. ground (arith, h.window j, vga_index_lem t.column t.row);
  margin = λ i hi. ground (arith, h.margin i, vga_index_lem t.column t.row);
}

Shows-advance :
    (t : Terminal) (s : Tape) → Shows t s → Shows (advance t) (record s { pos = s.pos + 1 })
Shows-advance t s h = elim (dec_lt t.column 79) [
  | yes p ↦ rw (advance_step t p) (record {
    in_row = omega arith;
    in_column = omega arith;
    place = omega arith;
    window = λ j hj. grind (arith, h.window);
    margin = λ i hi. grind (arith, h.margin);
  })
  | no p ↦
      let e : s.pos + 1 ≡ (s.pos / 80 + 1) * 80 = omega arith in
      rw (advance_wrap t (omega arith), e, next_row_column t 80) (Shows-next_row t s h)
]

Shows-put :
    (t : Terminal) (s : Tape) (c color : ℕ)
    → Shows t s
    → Shows (terminal_putchar_color t c color) (put s c color)
unfolding terminal_putchar_color put
Shows-put t s c color h = elim (Bool-cases (c == b'\n')) [
  | inl e ↦ rw e (Shows-next_row t s h)
  | inr e ↦ rw e (elim (Bool-cases (c == b'\r')) [
    | inl e' ↦ rw e' (Shows-return t s h)
    | inr e' ↦ rw e' (
        Shows-advance (terminal_putentryat t c color t.column t.row)
          (record s { cell = write s.cell s.pos (vga_entry c color) })
          (Shows-putentryat t s c color h))
  ])
]

-- A terminal that shows a tape goes on to show it, whatever is printed: `terminal_write` of the
-- first `length text` characters returns, and its effect is that of writing the same characters on
-- the tape, which does not scroll.
pub terminal_write-Shows :
    (text rest : List ℕ) (color : ℕ) (t : Terminal) (s : Tape)
    → Shows t s
    → (t' : Terminal) × (terminal_write t (text ++ rest) (length text) color ≡ ok t')
      × Shows t' (put_all s text color)
unfolding terminal_write write_loop put_all
terminal_write-Shows [] rest color t s h = (t, refl, h)
terminal_write-Shows (c ∷ text) rest color t s h =
    terminal_write-Shows text rest color (terminal_putchar_color t c color) (put s c color)
      (Shows-put t s c color h)

-- What the cleared screen shows: a tape that is blank on 25 rows.
abbrev pub blank : ℕ
blank = vga_entry b' ' (vga_entry_color vga_color_light_grey vga_color_black)

abbrev pub blank_tape : Memory → Tape
blank_tape m = record { pos = 0; cell = λ i. if ltb i cells then blank else m (cells + i % 80) }

-- With room on the event bus, `terminal_initialize` returns, and then the screen shows a tape that
-- is blank on its 25 rows and at its start, whatever was on the screen before.
pub terminal_initialize-Shows :
    (keypress : ℕ) (t : Terminal) (b b' : Bus) (status : ℕ)
    → register_event_callback b event_key_press keypress 0 ≡ ok (status, b')
    → (t' : Terminal) × (terminal_initialize keypress t b ≡ ok (t', b'))
      × Shows t' (blank_tape t.buffer)
unfolding terminal_initialize
terminal_initialize-Shows keypress t b b' status h = (
  record {
    row = 0;
    column = 0;
    buffer = clear_rows 25 0 (vga_entry_color vga_color_light_grey vga_color_black) t.buffer;
  },
  rw h,
  record {
    in_row = omega arith;
    in_column = omega arith;
    place = omega arith;
    window = λ j hj. ground (
      arith,
      clear_rows_lem 25 0 (vga_entry_color vga_color_light_grey vga_color_black) t.buffer j,
    );
    margin = λ i hi. ground (
      arith,
      clear_rows_lem 25 0 (vga_entry_color vga_color_light_grey vga_color_black) t.buffer
          (cells + i % 80),
    );
  },
)
