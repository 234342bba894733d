-- ===== src/Terminal/Scroll.antt =====
-- A character that scrolls the screen.
use low_flex_programming.Base.{ℕ, ◌+◌, ◌*◌, ◌<◌, ◌≡◌, arith}
use low_flex_programming.Terminal.{Terminal, terminal_putchar_color}
use low_flex_programming.Terminal.Screen.{shift_lem, cells}
use low_flex_programming.Terminal.Cursor.{next_row_scroll, next_row_cursor}

-- A line feed in the last row moves every other row up by one and leaves the cursor at the start
-- of the last row. That row is not blank: it takes the 80 cells that stand behind the screen.
pub putchar-scroll :
    (t : Terminal) (color x y : ℕ)
    → t.row ≡ 24
    → x < 80
    → y < 24
    → let t' = terminal_putchar_color t b'\n' color in
      (t'.row ≡ 24)
      × (t'.column ≡ 0)
      × (t'.buffer (80 * y + x) ≡ t.buffer (80 * (y + 1) + x))
      × (t'.buffer (80 * 24 + x) ≡ t.buffer (cells + x))
unfolding terminal_putchar_color
putchar-scroll t color x y h hx hy = (
  ground (arith, next_row_cursor t),
  ground (arith, next_row_cursor t),
  ground (arith, next_row_scroll t h, shift_lem (record t { row = 25; column = 0 }) (80 * y + x)),
  ground (arith, next_row_scroll t h, shift_lem (record t { row = 25; column = 0 }) (80 * 24 + x)),
)
