-- ===== src/Terminal/Screen.antt =====
-- What clearing and scrolling do to the cells of the video memory.
use low_flex_programming.Base.{
  ℕ, zero, suc, ◌+◌, ◌-◌, ◌*◌, ◌≤◌, ◌<◌, ◌≡◌, ◌&&◌, ltb, leb, if◌then◌else◌, arith,
}
use low_flex_programming.Common.{Memory, write, memcpy}
use low_flex_programming.Common.Copy.{memcpy_lem}
use low_flex_programming.Terminal.{
  Terminal, vga_width, vga_index, vga_entry, clear_row, clear_rows, shift_rows,
  terminal_shift_buffer,
}

abbrev pub cells : ℕ
cells = 2000

pub vga_index_lem : (x y : ℕ) → x < 80 → y < 26 → vga_index x y ≡ y * 80 + x
unfolding vga_index
vga_index_lem x y hx hy = omega arith

shift_rows_lem :
    (k y : ℕ) (m : Memory) (a : ℕ)
    → 1 ≤ y
    → y + k ≤ 26
    → shift_rows k y m a
      ≡ (if leb (80 * (y - 1)) a && ltb a (80 * (y - 1 + k)) then m (a + 80) else m a)
unfolding shift_rows
shift_rows_lem zero y m a hy hk = ground arith
shift_rows_lem (suc k) y m a hy hk = ground (
  arith,
  vga_index_lem 0 (y - 1),
  vga_index_lem 0 y,
  memcpy_lem m (vga_index 0 (y - 1)) (vga_index 0 y) 80 a,
  memcpy_lem m (vga_index 0 (y - 1)) (vga_index 0 y) 80 (a + 80),
  shift_rows_lem k (y + 1) (memcpy m (vga_index 0 (y - 1)) (vga_index 0 y) 80) a,
)

-- Each row of the screen takes the cells of the row below it; the last one takes the 80 cells
-- behind the screen, and no cell behind the screen changes.
pub shift_lem :
    (t : Terminal) (a : ℕ)
    → (terminal_shift_buffer t).buffer a
      ≡ (if ltb a cells then t.buffer (a + vga_width) else t.buffer a)
unfolding terminal_shift_buffer
shift_lem t a = ground (arith, shift_rows_lem 25 1 t.buffer a)

clear_row_lem :
    (k x y color : ℕ) (m : Memory) (a : ℕ)
    → x + k ≤ 80
    → y < 25
    → clear_row k x y color m a
      ≡ (if leb (y * 80 + x) a && ltb a (y * 80 + x + k) then vga_entry b' ' color else m a)
unfolding clear_row write
clear_row_lem zero x y color m a hx hy = ground arith
clear_row_lem (suc k) x y color m a hx hy = ground (
  arith,
  vga_index_lem x y,
  clear_row_lem k (x + 1) y color (write m (vga_index x y) (vga_entry b' ' color)) a,
)

pub clear_rows_lem :
    (k y color : ℕ) (m : Memory) (a : ℕ)
    → y + k ≤ 25
    → clear_rows k y color m a
      ≡ (if leb (y * 80) a && ltb a ((y + k) * 80) then vga_entry b' ' color else m a)
unfolding clear_rows
clear_rows_lem zero y color m a h = ground arith
clear_rows_lem (suc k) y color m a h = ground (
  arith,
  clear_row_lem 80 0 y color m a,
  clear_rows_lem k (y + 1) color (clear_row 80 0 y color m) a,
)
