-- ===== src/Keyboard/Maps.antt =====
-- ps2_kbd_defs.h: the port numbers, the modifier bits, and the tables from scan codes to modifiers
-- and characters. An array with designated initialisers is a list of its positional elements and
-- of the designated ones; what neither names is 0.
use low_flex_programming.Base.{ℕ, ◌+◌, ◌-◌, List, [], ◌∷◌, ◌++◌, set, replicate, length}

abbrev pub kbstatp : ℕ
kbstatp = 0x64

abbrev pub kbs_dib : ℕ
kbs_dib = 1

abbrev pub kbdatap : ℕ
kbdatap = 0x60

abbrev pub shift_bit : ℕ
shift_bit = 1

abbrev pub ctl_bit : ℕ
ctl_bit = 2

abbrev pub alt_bit : ℕ
alt_bit = 4

abbrev pub capslock : ℕ
capslock = 8

abbrev pub numlock : ℕ
numlock = 16

abbrev pub scrolllock : ℕ
scrolllock = 32

abbrev pub e0esc : ℕ
e0esc = 64

-- The macro C: the control character of a letter.
abbrev control : ℕ → ℕ
control x = x - b'@'

abbrev designate : List (ℕ × ℕ) → List ℕ → List ℕ
designate [] table = table
designate ((i, v) ∷ more) table = designate more (set table i v)

abbrev pub initialised : List ℕ → List (ℕ × ℕ) → List ℕ
initialised listed named = designate named (listed ++ replicate (256 - length listed) 0)

unfoldable pub shiftcode : List ℕ
shiftcode = initialised [] (
    (0x1d, ctl_bit)
    ∷ (0x2a, shift_bit)
    ∷ (0x36, shift_bit)
    ∷ (0x38, alt_bit)
    ∷ (0x9d, ctl_bit)
    ∷ (0xb8, alt_bit)
    ∷ [])

unfoldable pub togglecode : List ℕ
togglecode = initialised [] ((0x3a, capslock) ∷ (0x45, numlock) ∷ (0x46, scrolllock) ∷ [])

-- KEY_UP, KEY_DN, KEY_PGUP, KEY_PGDN, KEY_LF, KEY_RT, KEY_HOME, KEY_END, KEY_INS, KEY_DEL
abbrev special_keys : List (ℕ × ℕ)
special_keys =
    (0xc8, 0xe2)
    ∷ (0xd0, 0xe3)
    ∷ (0xc9, 0xe6)
    ∷ (0xd1, 0xe7)
    ∷ (0xcb, 0xe4)
    ∷ (0xcd, 0xe5)
    ∷ (0x97, 0xe0)
    ∷ (0xcf, 0xe1)
    ∷ (0xd2, 0xe8)
    ∷ (0xd3, 0xe9)
    ∷ []

unfoldable pub normalmap : List ℕ
normalmap =
    initialised
      (0 ∷ 0x1b ∷ b'1' ∷ b'2' ∷ b'3' ∷ b'4' ∷ b'5' ∷ b'6' ∷ b'7' ∷ b'8' ∷ b'9' ∷ b'0' ∷ b'-' ∷ b'='
        ∷ 8 ∷ b'\t' ∷ b'q' ∷ b'w' ∷ b'e' ∷ b'r' ∷ b't' ∷ b'y' ∷ b'u' ∷ b'i' ∷ b'o' ∷ b'p' ∷ b'['
        ∷ b']' ∷ b'\n' ∷ 0 ∷ b'a' ∷ b's' ∷ b'd' ∷ b'f' ∷ b'g' ∷ b'h' ∷ b'j' ∷ b'k' ∷ b'l' ∷ b';'
        ∷ b'\'' ∷ b'`' ∷ 0 ∷ b'\\' ∷ b'z' ∷ b'x' ∷ b'c' ∷ b'v' ∷ b'b' ∷ b'n' ∷ b'm' ∷ b',' ∷ b'.'
        ∷ b'/' ∷ 0 ∷ b'*' ∷ 0 ∷ b' ' ∷ 0 ∷ 0 ∷ 0 ∷ 0 ∷ 0 ∷ 0 ∷ 0 ∷ 0 ∷ 0 ∷ 0 ∷ 0 ∷ 0 ∷ 0 ∷ b'7'
        ∷ b'8' ∷ b'9' ∷ b'-' ∷ b'4' ∷ b'5' ∷ b'6' ∷ b'+' ∷ b'1' ∷ b'2' ∷ b'3' ∷ b'0' ∷ b'.' ∷ 0 ∷ 0
        ∷ 0 ∷ 0 ∷ [])
      ((0x9c, b'\n') ∷ (0xb5, b'/') ∷ special_keys)

unfoldable pub shiftmap : List ℕ
shiftmap =
    initialised
      (0 ∷ 27 ∷ b'!' ∷ b'@' ∷ b'#' ∷ b'$' ∷ b'%' ∷ b'^' ∷ b'&' ∷ b'*' ∷ b'(' ∷ b')' ∷ b'_' ∷ b'+'
        ∷ 8 ∷ b'\t' ∷ b'Q' ∷ b'W' ∷ b'E' ∷ b'R' ∷ b'T' ∷ b'Y' ∷ b'U' ∷ b'I' ∷ b'O' ∷ b'P' ∷ b'{'
        ∷ b'}' ∷ b'\n' ∷ 0 ∷ b'A' ∷ b'S' ∷ b'D' ∷ b'F' ∷ b'G' ∷ b'H' ∷ b'J' ∷ b'K' ∷ b'L' ∷ b':'
        ∷ b'"' ∷ b'~' ∷ 0 ∷ b'|' ∷ b'Z' ∷ b'X' ∷ b'C' ∷ b'V' ∷ b'B' ∷ b'N' ∷ b'M' ∷ b'<' ∷ b'>'
        ∷ b'?' ∷ 0 ∷ b'*' ∷ 0 ∷ b' ' ∷ 0 ∷ 0 ∷ 0 ∷ 0 ∷ 0 ∷ 0 ∷ 0 ∷ 0 ∷ 0 ∷ 0 ∷ 0 ∷ 0 ∷ 0 ∷ b'7'
        ∷ b'8' ∷ b'9' ∷ b'-' ∷ b'4' ∷ b'5' ∷ b'6' ∷ b'+' ∷ b'1' ∷ b'2' ∷ b'3' ∷ b'0' ∷ b'.' ∷ 0 ∷ 0
        ∷ 0 ∷ 0 ∷ [])
      ((0x9c, b'\n') ∷ (0xb5, b'/') ∷ special_keys)

-- C('/') is -17, cut to an `unsigned char`.
abbrev slash_control : ℕ
slash_control = b'/' + 256 - b'@'

unfoldable pub ctlmap : List ℕ
ctlmap =
    initialised
      (0
        ∷ 0
        ∷ 0
        ∷ 0
        ∷ 0
        ∷ 0
        ∷ 0
        ∷ 0
        ∷ 0
        ∷ 0
        ∷ 0
        ∷ 0
        ∷ 0
        ∷ 0
        ∷ 0
        ∷ 0
        ∷ control b'Q'
        ∷ control b'W'
        ∷ control b'E'
        ∷ control b'R'
        ∷ control b'T'
        ∷ control b'Y'
        ∷ control b'U'
        ∷ control b'I'
        ∷ control b'O'
        ∷ control b'P'
        ∷ 0
        ∷ 0
        ∷ b'\r'
        ∷ 0
        ∷ control b'A'
        ∷ control b'S'
        ∷ control b'D'
        ∷ control b'F'
        ∷ control b'G'
        ∷ control b'H'
        ∷ control b'J'
        ∷ control b'K'
        ∷ control b'L'
        ∷ 0
        ∷ 0
        ∷ 0
        ∷ 0
        ∷ control b'\\'
        ∷ control b'Z'
        ∷ control b'X'
        ∷ control b'C'
        ∷ control b'V'
        ∷ control b'B'
        ∷ control b'N'
        ∷ control b'M'
        ∷ 0
        ∷ 0
        ∷ slash_control
        ∷ 0
        ∷ 0
        ∷ [])
      ((0x9c, b'\r') ∷ (0xb5, slash_control) ∷ special_keys)
