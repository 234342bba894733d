-- ===== src/Terminal/Cursor.antt =====
-- Memory safety of the output: the cursor stays on the screen, and no cell behind it is written.
use low_flex_programming.Base.{
  ℕ, zero, suc, ◌+◌, ◌≤◌, ◌<◌, ◌≡◌, refl, arith, ◌∙◌, List, [], ◌∷◌, length, ok, min,
}
use low_flex_programming.Common.{write}
use low_flex_programming.Terminal.{
  Terminal, vga_width, vga_height, terminal_shift_buffer, next_row, advance, terminal_putentryat,
  terminal_putchar_color, write_loop, terminal_write,
}
use low_flex_programming.Terminal.Screen.{vga_index_lem, shift_lem, cells}

pub record IsOnScreen (t : Terminal) : Type 0 where
  pub in_row : t.row < vga_height
  pub in_column : t.column < vga_width

-- The state that one step of the cursor to the next row starts from.
abbrev below : Terminal → Terminal
below t = record t { row = 25; column = 0 }

pub next_row_down :
    (t : Terminal) → t.row < 24 → next_row t ≡ record t { row = t.row + 1; column = 0 }
unfolding next_row
next_row_down t h = ground arith

pub next_row_scroll :
    (t : Terminal)
    → t.row ≡ 24
    → next_row t ≡ terminal_shift_buffer (record t { row = 25; column = 0 })
unfolding next_row
next_row_scroll t h = ground arith

pub next_row_cursor :
    (t : Terminal)
    → t.row < vga_height
    → ((next_row t).row ≡ min (t.row + 1) 24) × ((next_row t).column ≡ 0)
unfolding next_row terminal_shift_buffer
next_row_cursor t h = ground arith

next_row-behind :
    (t : Terminal) (a : ℕ) → t.row < vga_height → cells ≤ a → (next_row t).buffer a ≡ t.buffer a
unfolding next_row
next_row-behind t a hr h = ground (arith, shift_lem (below t) a)

-- The column that the cursor leaves does not matter.
pub next_row_column : (t : Terminal) (k : ℕ) → next_row (record t { column = k }) ≡ next_row t
unfolding next_row
next_row_column t k = refl

pub advance_step : (t : Terminal) → t.column < 79 → advance t ≡ record t { column = t.column + 1 }
unfolding advance
advance_step t h = ground arith

pub advance_wrap : (t : Terminal) → t.column ≡ 79 → advance t ≡ next_row (record t { column = 80 })
unfolding advance
advance_wrap t h = ground arith

advance-IsOnScreen : (t : Terminal) → IsOnScreen t → IsOnScreen (advance t)
unfolding advance
advance-IsOnScreen t h = ground (arith, next_row_cursor (record t { column = 80 }))

advance-behind :
    (t : Terminal) (a : ℕ) → IsOnScreen t → cells ≤ a → (advance t).buffer a ≡ t.buffer a
unfolding advance
advance-behind t a h ha = ground (arith, next_row-behind (record t { column = 80 }) a)

pub putchar-IsOnScreen :
    (t : Terminal) (c color : ℕ) → IsOnScreen t → IsOnScreen (terminal_putchar_color t c color)
unfolding terminal_putchar_color terminal_putentryat
putchar-IsOnScreen t c color h =
    ground
      (arith, next_row_cursor t, advance-IsOnScreen (terminal_putentryat t c color t.column t.row))

putchar-behind :
    (t : Terminal) (c color a : ℕ)
    → IsOnScreen t
    → cells ≤ a
    → (terminal_putchar_color t c color).buffer a ≡ t.buffer a
unfolding terminal_putchar_color terminal_putentryat write
putchar-behind t c color a h ha = ground (
  arith,
  next_row-behind t a,
  advance-behind (terminal_putentryat t c color t.column t.row) a,
  vga_index_lem t.column t.row,
)

-- Started on the screen, with at least `size` characters at hand, `terminal_write` returns with the
-- cursor on the screen and without a write behind the screen's last cell.
pub terminal_write-IsOnScreen :
    (text : List ℕ) (size : ℕ) (color : ℕ) (t : Terminal)
    → IsOnScreen t
    → size ≤ length text
    → (t' : Terminal) × (terminal_write t text size color ≡ ok t')
      × IsOnScreen t'
      × ((a : ℕ) → cells ≤ a → t'.buffer a ≡ t.buffer a)
unfolding terminal_write write_loop
terminal_write-IsOnScreen text zero color t h hs = (t, refl, h, λ a ha. refl)
terminal_write-IsOnScreen [] (suc size) color t h hs = absurd (omega arith)
terminal_write-IsOnScreen (c ∷ text) (suc size) color t h hs =
    let (t', done, on, same) =
      terminal_write-IsOnScreen text size color (terminal_putchar_color t c color)
        (putchar-IsOnScreen t c color h) (omega arith) in
    (t', done, on, λ a ha. same a ha ∙ putchar-behind t c color a h ha)
