-- ===== src/Terminal/Examples.antt =====
-- The theorems on the terminal at a screen with marked cells behind it.
use low_flex_programming.Base.{ℕ, ◌+◌, ◌*◌, ◌≤◌, ◌≡◌, refl, List, [], ◌∷◌, ◌++◌, ok, arith}
use low_flex_programming.Common.{write}
use low_flex_programming.EventBus.{Bus}
use low_flex_programming.EventBus.Entries.{entry}
use low_flex_programming.Terminal.{Terminal, vga_entry, terminal_write, terminal_putchar_color}
use low_flex_programming.Terminal.Screen.{cells}
use low_flex_programming.Terminal.Cursor.{IsOnScreen, terminal_write-IsOnScreen}
use low_flex_programming.Terminal.Tape.{put, put_all, Shows, terminal_write-Shows}
use low_flex_programming.Terminal.Scroll.{putchar-scroll}

-- Each cell of the memory holds its own index.
abbrev screen : Terminal
screen = record { row = 24; column = 79; buffer = λ a. a }

abbrev text : List ℕ
text = b'o' ∷ b'k' ∷ b'\n' ∷ []

terminal_write-IsOnScreen_example :
    (t' : Terminal) × (terminal_write screen text 2 7 ≡ ok t')
    × IsOnScreen t'
    × ((a : ℕ) → cells ≤ a → t'.buffer a ≡ a)
terminal_write-IsOnScreen_example =
    terminal_write-IsOnScreen text 2 7 screen
      (record { in_row = omega arith; in_column = omega arith }) (omega arith)

abbrev dark : Terminal
dark = record { row = 0; column = 0; buffer = λ a. 0 }

dark-Shows : Shows dark (record { pos = 0; cell = λ a. 0 })
dark-Shows = record {
  in_row = omega arith;
  in_column = omega arith;
  place = refl;
  window = λ j hj. refl;
  margin = λ i hi. refl;
}

terminal_write-Shows_example :
    (t' : Terminal) × (terminal_write dark (text ++ []) 3 7 ≡ ok t')
    × Shows t' (record {
      pos = 80;
      cell = write (write (λ a. 0) 0 (vga_entry b'o' 7)) 1 (vga_entry b'k' 7);
    })
unfolding put put_all
terminal_write-Shows_example =
    terminal_write-Shows text [] 7 dark (record { pos = 0; cell = λ a. 0 }) dark-Shows

abbrev bus : Bus
bus = record { known_callbacks = entry 0 0 0 ∷ []; callbacks_count = 0 }

abbrev listening : Bus
listening = record { known_callbacks = entry 1 900 0 ∷ []; callbacks_count = 1 }

putchar-scroll_example :
    let t' = terminal_putchar_color screen b'\n' 7 in
    (t'.row ≡ 24)
    × (t'.column ≡ 0)
    × (t'.buffer (80 * 3 + 5) ≡ 325)
    × (t'.buffer (80 * 24 + 5) ≡ 2005)
putchar-scroll_example = putchar-scroll screen 7 5 3 refl (omega arith) (omega arith)
