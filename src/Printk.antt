-- ===== src/Printk.antt =====
-- printk.c: numbers, strings and pointers as text in a small buffer, and the formatted output.
-- A `char*` into the buffer is the array and an offset. A 32-bit word stands for `uint32_t`, for
-- `int32_t` by its bit pattern, and for a pointer.
pub mod Numeral
pub mod Digits
pub mod Swap
pub mod Number
pub mod Format
pub mod Directive
pub mod Vprintk
mod Examples
use low_flex_programming.Base.{
  ℕ, zero, suc, ◌+◌, ◌-◌, ◌*◌, ◌/◌, ◌%◌, ◌^◌, bit_xor, List, [], ◌∷◌, Bool, true, false, ◌==◌, ltb,
  leb, if◌then◌else◌, length, get_elem?, set, Run, ok, fault, ◌>>=◌, checked, minus32,
}
use low_flex_programming.Terminal.{
  Terminal, vga_entry, vga_color_black, vga_color_light_grey, terminal_write,
  terminal_writestring_color,
}

abbrev pub printk_buf_size : ℕ
printk_buf_size = 11

abbrev pub digits : List ℕ
digits =
    b'0' ∷ b'1' ∷ b'2' ∷ b'3' ∷ b'4' ∷ b'5' ∷ b'6' ∷ b'7' ∷ b'8' ∷ b'9' ∷ b'a' ∷ b'b' ∷ b'c' ∷ b'd'
    ∷ b'e' ∷ b'f' ∷ []

-- A write out of bounds is a fault.
pub store : List ℕ → ℕ → ℕ → Run (List ℕ)
store buf i c = if ltb i (length buf) then ok (set buf i c) else fault

-- The first loop of `bprintu32`. A division by zero traps.
pub digit_loop : ℕ → List ℕ → ℕ → ℕ → ℕ → ℕ → Run (ℕ × List ℕ)
digit_loop zero buf off bytes a base = fault
digit_loop (suc fuel) buf off bytes a base =
    let round = if base == 0 then fault else do
      digit ← checked (get_elem? digits (a % base))
      buf ← store buf (off + bytes) digit
      digit_loop fuel buf off (bytes + 1) (a / base) base
    in if a == 0 then ok (bytes, buf) else round

-- buf[p] ^= buf[q]
pub xor_into : List ℕ → ℕ → ℕ → Run (List ℕ)
xor_into buf p q = do
  x ← checked (get_elem? buf p)
  y ← checked (get_elem? buf q)
  store buf p (bit_xor x y)

-- The three assignments that exchange two bytes.
pub swap : List ℕ → ℕ → ℕ → Run (List ℕ)
swap buf p q = do buf ← xor_into buf p q; buf ← xor_into buf q p; xor_into buf p q

-- The second loop of `bprintu32`, by the rounds that are left.
pub swap_loop : ℕ → List ℕ → ℕ → ℕ → ℕ → Run (List ℕ)
swap_loop zero buf off i bytes = ok buf
swap_loop (suc rounds) buf off i bytes = do
  buf ← swap buf (off + i) (off + (bytes - i - 1))
  swap_loop rounds buf off (i + 1) bytes

-- A `uint32_t` has at most 32 digits in a base from 2 on, and the loop's last test takes a round.
abbrev pub digit_fuel : ℕ
digit_fuel = 33

pub bprintu32 : List ℕ → ℕ → ℕ → ℕ → Run (ℕ × List ℕ)
bprintu32 buf off a base = if a == 0 then (do buf ← store buf off b'0'; ok (1, buf)) else (do
  (bytes, buf) ← digit_loop digit_fuel buf off 0 a base
  buf ← swap_loop (bytes / 2) buf off 0 bytes
  ok (bytes, buf))

abbrev pub is_negative : ℕ → Bool
is_negative a = leb (2 ^ 31) a

pub bprints32 : List ℕ → ℕ → ℕ → ℕ → Run (ℕ × List ℕ)
bprints32 buf off a base =
    if is_negative a
    then (do
      buf ← store buf off b'-'
      (bytes, buf) ← bprintu32 buf (off + 1) (minus32 a) base
      ok (1 + bytes, buf))
    else bprintu32 buf off a base

-- The string is the array from `cur` on to its end.
pub bprintstr : List ℕ → ℕ → ℕ → List ℕ → Run (ℕ × List ℕ)
bprintstr buf off len [] = fault
bprintstr buf off len (c ∷ cur) =
    let round = store buf (off + len) c >>= λ buf. bprintstr buf off (len + 1) cur in
    if c == 0 then ok (len, buf) else round

pub bprintptr : List ℕ → ℕ → ℕ → Run (ℕ × List ℕ)
bprintptr buf off ptr =
    if ptr == 0 then bprintstr buf off 0 (b'(' ∷ b'n' ∷ b'i' ∷ b'l' ∷ b')' ∷ 0 ∷ []) else (do
      (bytes, buf) ← bprintstr buf off 0 (b'0' ∷ b'x' ∷ 0 ∷ [])
      (more, buf) ← bprintu32 buf (off + bytes) ptr 16
      ok (bytes + more, buf))

-- The variables of `vprintk`. `args` is what `va_arg` has still to give, by words.
pub record Printing : Type 0 where
  pub idle : Bool
  pub args : List ℕ
  pub buf : List ℕ
  pub terminal : Terminal

-- `va_arg`: reading past the arguments is undefined.
abbrev pub va_arg : List ℕ → Run (ℕ × List ℕ)
va_arg [] = fault
va_arg (a ∷ args) = ok (a, args)

-- `uint16_t color`: a grey glyph's cell for the character 7, used as a colour. The terminal takes
-- its low byte.
abbrev pub color : ℕ
color = vga_entry vga_color_light_grey vga_color_black

-- A conversion that fills the buffer, and the `terminal_write` behind the switch.
pub print_number : Printing → (List ℕ → ℕ → ℕ → Run (ℕ × List ℕ)) → Run Printing
print_number s convert = do
  (value, args) ← va_arg s.args
  (size, buf) ← convert s.buf 0 value
  terminal ← if size == 0 then ok s.terminal else terminal_write s.terminal buf size color
  ok (record { idle = true; args = args; buf = buf; terminal = terminal })

-- `bytes_at p` is the memory from the address `p` on.
module _ (bytes_at : ℕ → List ℕ) where
  pub print_string : Printing → Run Printing
  print_string s = do
    (str, args) ← va_arg s.args
    terminal ← terminal_writestring_color s.terminal (bytes_at str) color
    ok (record s { idle = true; args = args; terminal = terminal })

  -- The switch. An unknown letter prints nothing.
  pub directive : Printing → ℕ → Run Printing
  directive s c =
      if c == b'u'
      then print_number s (λ buf off a. bprintu32 buf off a 10)
      else if c == b'x'
      then print_number s (λ buf off a. bprintu32 buf off a 16)
      else if c == b'd'
      then print_number s (λ buf off a. bprints32 buf off a 10)
      else if c == b'p'
      then print_number s bprintptr
      else if c == b's'
      then print_string s
      else ok (record s { idle = true })

  -- One round of the loop, at the character `c` with `cursor` behind it.
  pub vprintk_step : Printing → ℕ → List ℕ → Run Printing
  vprintk_step s c cursor =
      if s.idle
      then (if c == b'%' then ok (record s { idle = false }) else (do
        terminal ← terminal_write s.terminal (c ∷ cursor) 1 color
        ok (record s { terminal = terminal })))
      else directive s c

  pub vprintk_loop : List ℕ → Printing → Run Printing
  vprintk_loop [] s = fault
  vprintk_loop (c ∷ cursor) s =
      let round = vprintk_step s c cursor >>= vprintk_loop cursor in if c == 0 then ok s else round

  -- `buf` is what stands in the uninitialised array.
  pub vprintk : List ℕ → List ℕ → List ℕ → Terminal → Run Terminal
  vprintk buf fmt args t = do
    s ← vprintk_loop fmt (record { idle = true; args = args; buf = buf; terminal = t })
    ok s.terminal

  -- The `va_list` is the list of the arguments.
  abbrev pub printk : List ℕ → List ℕ → List ℕ → Terminal → Run Terminal
  printk buf fmt args t = vprintk buf fmt args t
