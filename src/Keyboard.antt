-- ===== src/Keyboard.antt =====
-- keyboard.c: the driver of the PS/2 keyboard. A scan code and the status byte before it, which
-- `inb` reads from the ports, are arguments; the static `shift` is passed on from call to call.
mod Maps
pub mod Flags
pub mod Codes
pub mod CapsLock
pub mod Irq
mod Examples
unfoldable pub use Maps.*
use low_flex_programming.Base.{
  ℕ, zero, suc, ◌+◌, ◌-◌, ◌%◌, ◌^◌, bit_and, bit_or, bit_xor, List, [], ◌∷◌, Bool, ◌&&◌, ◌||◌, ◌==◌,
  leb, if◌then◌else◌, not, get_elem?, Run, ok, fault, ◌>>=◌, checked, add32, minus32, and_not, has,
}

-- The static array `charcode`.
pub charcode : ℕ → List ℕ
charcode i = if i == 0 then normalmap else if i == 1 then shiftmap else ctlmap

-- Upper case for lower case and the other way round.
pub swap_case : ℕ → ℕ
swap_case c =
    if leb b'a' c && leb c b'z'
    then add32 c (minus32 32)
    else if leb b'A' c && leb c b'Z'
    then add32 c 32
    else c

-- The rest of `readcode`, for a key that is pressed.
pub press : ℕ → ℕ → Run (ℕ × ℕ)
press shift code = do
  modifier ← checked (get_elem? shiftcode code)
  toggle ← checked (get_elem? togglecode code)
  let shift = bit_xor (bit_or shift modifier) toggle
  c ← checked (get_elem? (charcode (bit_and shift (bit_or ctl_bit shift_bit))) code)
  ok (if has shift capslock then swap_case c else c, shift)

pub release : ℕ → ℕ → Run (ℕ × ℕ)
release shift code = do
  modifier ← checked (get_elem? shiftcode (if has shift e0esc then code else bit_and code 0x7f))
  ok (0, and_not shift (bit_or modifier e0esc))

-- The result and the new `shift`.
pub readcode : ℕ → ℕ → ℕ → Run (ℕ × ℕ)
readcode shift st code =
    if bit_and st kbs_dib == 0
    then ok (minus32 1, shift)
    else if code == 0xe0
    then ok (0, bit_or shift e0esc)
    else if has code 0x80
    then release shift code
    else if has shift e0esc
    then press (and_not shift e0esc) (bit_or code 0x80)
    else press shift code

-- The loop of `turn_on_capslock_light`, over what the port gives, read after read; a device that never
-- answers uses it up.
unfoldable pub light_loop : List ℕ → Run (Unit {0})
light_loop [] = fault
light_loop (resp ∷ resps) =
    let again = light_loop resps in if resp == 0xfa || resp == 0xfe then ok tt else again

-- The writes to the ports, the last one first.
unfoldable pub turn_on_capslock_light : List ℕ → List (ℕ × ℕ) → Run (List (ℕ × ℕ))
turn_on_capslock_light resps ports = do
  let ports = (0x60, 2) ∷ (0x64, 0xed) ∷ ports
  _ ← light_loop resps
  ok ports
