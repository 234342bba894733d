-- ===== src/Keyboard/Examples.antt =====
-- The theorems on the keyboard at concrete scan codes.
use low_flex_programming.Base.{
  ◌≡◌, refl, false, List, [], ◌∷◌, ok, arith, replicate, length-replicate,
}
use low_flex_programming.EventBus.{CallbackEntry}
use low_flex_programming.EventBus.Entries.{Holds, entry}
use low_flex_programming.Terminal.Print.{echo}
use low_flex_programming.Apic.{apic_eoi}
use low_flex_programming.Keyboard.{
  readcode, press, release, charcode, swap_case, shiftcode, togglecode, normalmap, shiftmap, ctlmap,
}
use low_flex_programming.Keyboard.Flags.{Flags, bits, react, react_all, pressed}
use low_flex_programming.Keyboard.Codes.{read_all, read_all-react_all}
use low_flex_programming.Keyboard.Irq.{KeyboardState, keyboard_irq, keyboard_irq-echo}

abbrev quiet : Flags
quiet = record {
  shift_down = false;
  ctl_down = false;
  alt_down = false;
  caps_on = false;
  num_on = false;
  scroll_on = false;
  escaped = false;
}

read_all-react_all_example : read_all 0 (0x2a ∷ 0x3a ∷ []) ≡ ok 9
unfolding bits react_all react pressed
read_all-react_all_example = read_all-react_all (0x2a ∷ 0x3a ∷ []) quiet (omega arith)

key_a : readcode 0 1 0x1e ≡ ok (b'a', 0)
unfolding readcode press release charcode swap_case shiftcode togglecode normalmap shiftmap ctlmap
key_a = refl

abbrev spare : List CallbackEntry
spare = replicate 1023 (entry 0 0 0)

abbrev idle : KeyboardState
idle = record {
  shift = 0;
  lapic = [];
  bus = record { known_callbacks = entry 1 900 0 ∷ spare; callbacks_count = 1 };
  terminal = record { row = 0; column = 0; buffer = λ a. 0 };
}

idle-Holds : Holds idle.bus (entry 1 900 0 ∷ []) spare
idle-Holds = record {
  table = refl;
  count = refl;
  size = omega (arith, length-replicate 1023 (entry 0 0 0));
}

keyboard_irq-echo_example :
    keyboard_irq 900 1 0x1e idle
    ≡ ok (record {
      shift = 0;
      lapic = (44, 0) ∷ [];
      bus = idle.bus;
      terminal = echo b'a' idle.terminal;
    })
unfolding apic_eoi
keyboard_irq-echo_example = keyboard_irq-echo 900 0 1 0x1e b'a' 0 idle spare idle-Holds key_a
