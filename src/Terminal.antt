-- ===== src/Terminal.antt =====
-- vga.c and vga.h: the text terminal on the 80 by 25 screen of the VGA.
pub mod Screen
pub mod Cursor
pub mod Tape
pub mod Scroll
pub mod Print
mod Examples
use low_flex_programming.Base.{
  ℕ, zero, suc, ◌+◌, ◌-◌, ◌*◌, ◌/◌, ◌%◌, ◌^◌, bit_or, List, [], ◌∷◌, ◌==◌, if◌then◌else◌, get_elem?,
  Run, ok, ◌>>=◌, checked, u8, u16, u32, add32, sub32, ◌<<<◌,
}
use low_flex_programming.Common.{Memory, write, memcpy, strlen}
use low_flex_programming.EventBus.{Bus, Event, event_key_press, register_event_callback}

-- enum vga_color, the two colours in use.
abbrev pub vga_color_black : ℕ
vga_color_black = 0

abbrev pub vga_color_light_grey : ℕ
vga_color_light_grey = 7

unfoldable pub vga_entry_color : ℕ → ℕ → ℕ
vga_entry_color fg bg = u8 (bit_or fg (bg <<< 4))

-- `uc` is an `unsigned char` and `color` a `uint8_t`: the caller's value is cut to a byte.
unfoldable pub vga_entry : ℕ → ℕ → ℕ
vga_entry uc color = u16 (bit_or (u16 (u8 uc)) (u16 (u8 color) <<< 8))

abbrev pub vga_width : ℕ
vga_width = 80

abbrev pub vga_height : ℕ
vga_height = 25

-- The static variables. `buffer` is the video memory from `terminal_buffer` on, by 16-bit cells.
pub record Terminal : Type 0 where
  pub row : ℕ
  pub column : ℕ
  pub buffer : Memory

unfoldable pub vga_index : ℕ → ℕ → ℕ
vga_index x y = u32 (y * vga_width + x)

-- The inner loop of `terminal_initialize`, by the columns that are left, and the outer one.
pub clear_row : ℕ → ℕ → ℕ → ℕ → Memory → Memory
clear_row zero x y color m = m
clear_row (suc columns) x y color m =
    clear_row columns (x + 1) y color (write m (vga_index x y) (vga_entry b' ' color))

pub clear_rows : ℕ → ℕ → ℕ → Memory → Memory
clear_rows zero y color m = m
clear_rows (suc rows) y color m = clear_rows rows (y + 1) color (clear_row vga_width 0 y color m)

-- `keypress` is the address of `handle_keypress`. The panic is that of a full event bus.
pub terminal_initialize : ℕ → Terminal → Bus → Run (Terminal × Bus)
unfolding clear_row clear_rows
terminal_initialize keypress t b = do
  let color = vga_entry_color vga_color_light_grey vga_color_black
  (_, b') ← register_event_callback b event_key_press keypress 0
  ok (record { row = 0; column = 0; buffer = clear_rows vga_height 0 color t.buffer }, b')

-- The loop of `terminal_shift_buffer`, by the rounds that are left. `memcpy` moves the 160 bytes
-- of a row, which are `vga_width` cells.
pub shift_rows : ℕ → ℕ → Memory → Memory
shift_rows zero y m = m
shift_rows (suc rounds) y m =
    shift_rows rounds (y + 1) (memcpy m (vga_index 0 (y - 1)) (vga_index 0 y) vga_width)

pub terminal_shift_buffer : Terminal → Terminal
unfolding shift_rows
terminal_shift_buffer t = record t {
  buffer = shift_rows vga_height 1 t.buffer;
  row = sub32 t.row 1;
}

pub terminal_putentryat : Terminal → ℕ → ℕ → ℕ → ℕ → Terminal
terminal_putentryat t c color x y = record t {
  buffer = write t.buffer (vga_index x y) (vga_entry c color);
}

-- `terminal_row++` and the test behind it.
pub next_row : Terminal → Terminal
next_row t =
    let t' : Terminal = record t { row = add32 t.row 1; column = 0 } in
    if t'.row == vga_height then terminal_shift_buffer t' else t'

pub advance : Terminal → Terminal
advance t =
    let t' : Terminal = record t { column = add32 t.column 1 } in
    if t'.column == vga_width then next_row t' else t'

pub terminal_putchar_color : Terminal → ℕ → ℕ → Terminal
terminal_putchar_color t c color =
    if c == b'\n'
    then next_row t
    else if c == b'\r'
    then record t { column = 0 }
    else advance (terminal_putentryat t c color t.column t.row)

-- The loop of `terminal_write`, by the rounds that are left; `text` is the array from `data + i` on.
pub write_loop : ℕ → List ℕ → ℕ → Terminal → Run Terminal
write_loop zero text color t = ok t
write_loop (suc rounds) [] color t = Run.fault
write_loop (suc rounds) (c ∷ text) color t =
    write_loop rounds text color (terminal_putchar_color t c color)

pub terminal_write : Terminal → List ℕ → ℕ → ℕ → Run Terminal
unfolding write_loop
terminal_write t text size color = write_loop size text color t

pub terminal_writestring_color : Terminal → List ℕ → ℕ → Run Terminal
terminal_writestring_color t text color = do size ← strlen text; terminal_write t text size color

pub terminal_writestring : Terminal → List ℕ → Run Terminal
terminal_writestring t text = do
  size ← strlen text
  terminal_write t text size (vga_entry_color vga_color_light_grey vga_color_black)

-- A `char[2]` on the stack, whose second byte is the NUL.
pub handle_keypress : Terminal → Event → Run Terminal
handle_keypress t event = terminal_writestring t (u8 event.keycode ∷ 0 ∷ [])
