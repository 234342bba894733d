-- ===== src/Keyboard/Flags.antt =====
-- The bits of `shift` as flags, and what each scan code should do to them.
use low_flex_programming.Base.{
  has, ℕ, ◌+◌, ◌-◌, Bool, true, false, ◌&&◌, ◌||◌, ◌==◌, leb, if◌then◌else◌, not, List, [], ◌∷◌,
}
use low_flex_programming.Keyboard.{
  shift_bit, ctl_bit, alt_bit, capslock, numlock, scrolllock, e0esc,
}

pub record Flags : Type 0 where
  pub shift_down : Bool
  pub ctl_down : Bool
  pub alt_down : Bool
  pub caps_on : Bool
  pub num_on : Bool
  pub scroll_on : Bool
  pub escaped : Bool

unfoldable pub flags : ℕ → Flags
flags s = record {
  shift_down = has s shift_bit;
  ctl_down = has s ctl_bit;
  alt_down = has s alt_bit;
  caps_on = has s capslock;
  num_on = has s numlock;
  scroll_on = has s scrolllock;
  escaped = has s e0esc;
}

abbrev weight : Bool → ℕ → ℕ
weight b n = if b then n else 0

unfoldable pub bits : Flags → ℕ
bits f =
    weight f.shift_down 1
    + weight f.ctl_down 2
    + weight f.alt_down 4
    + weight f.caps_on 8
    + weight f.num_on 16
    + weight f.scroll_on 32
    + weight f.escaped 64

-- A key is its scan code, with 0x80 added if an escape came before it.
abbrev pub is_shift : ℕ → Bool
is_shift key = (key == 0x2a) || (key == 0x36)

abbrev pub is_ctl : ℕ → Bool
is_ctl key = (key == 0x1d) || (key == 0x9d)

abbrev pub is_alt : ℕ → Bool
is_alt key = (key == 0x38) || (key == 0xb8)

abbrev pub toggled : Bool → Bool → Bool
toggled b on = if b then not on else on

-- A modifier key is down from its press on, a lock changes with each press, and the escape holds
-- for one code.
unfoldable pub pressed : Flags → ℕ → Flags
pressed f key = record {
  shift_down = f.shift_down || is_shift key;
  ctl_down = f.ctl_down || is_ctl key;
  alt_down = f.alt_down || is_alt key;
  caps_on = toggled (key == 0x3a) f.caps_on;
  num_on = toggled (key == 0x45) f.num_on;
  scroll_on = toggled (key == 0x46) f.scroll_on;
  escaped = false;
}

-- A release clears the modifier of the key and nothing else. The key of an escaped release keeps
-- its high bit, as the key of an escaped press has it.
unfoldable pub released : Flags → ℕ → Flags
released f key = record f {
  shift_down = f.shift_down && not (is_shift key);
  ctl_down = f.ctl_down && not (is_ctl key);
  alt_down = f.alt_down && not (is_alt key);
  escaped = false;
}

unfoldable pub react : Flags → ℕ → Flags
react f code =
    if code == 0xe0
    then record f { escaped = true }
    else if leb 128 code
    then released f (if f.escaped then code else code - 128)
    else pressed f (if f.escaped then code + 128 else code)

unfoldable pub react_all : Flags → List ℕ → Flags
react_all f [] = f
react_all f (code ∷ codes) = react_all (react f code) codes
