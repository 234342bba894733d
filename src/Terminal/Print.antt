-- ===== src/Terminal/Print.antt =====
-- `terminal_write` and its callers for strings, as a run of `terminal_putchar_color` over a text.
use low_flex_programming.Base.{
  ℕ, ◌≡◌, refl, List, [], ◌∷◌, ◌++◌, length, ok, u8, ◌==◌, if◌then◌else◌, Bool-cases, inl, inr,
  ==→eq, ==→ne,
}
use low_flex_programming.Common.Copy.{IsText, strlen-length}
use low_flex_programming.EventBus.{Event}
use low_flex_programming.Terminal.{
  Terminal, terminal_putchar_color, write_loop, terminal_write, terminal_writestring_color,
  terminal_writestring, handle_keypress, vga_entry_color, vga_color_light_grey, vga_color_black,
}

unfoldable pub print_all : Terminal → List ℕ → ℕ → Terminal
print_all t [] color = t
print_all t (c ∷ text) color = print_all (terminal_putchar_color t c color) text color

pub print_all-append :
    (t : Terminal) (s text : List ℕ) (color : ℕ)
    → print_all t (s ++ text) color ≡ print_all (print_all t s color) text color
unfolding print_all
print_all-append t [] text color = refl
print_all-append t (c ∷ s) text color =
    print_all-append (terminal_putchar_color t c color) s text color

pub terminal_write_lem :
    (t : Terminal) (text rest : List ℕ) (color : ℕ)
    → terminal_write t (text ++ rest) (length text) color ≡ ok (print_all t text color)
unfolding terminal_write write_loop print_all
terminal_write_lem t [] rest color = refl
terminal_write_lem t (c ∷ text) rest color =
    terminal_write_lem (terminal_putchar_color t c color) text rest color

-- A string is printed up to its NUL.
pub terminal_writestring_color_lem :
    (t : Terminal) (text after : List ℕ) (color : ℕ)
    → IsText text
    → terminal_writestring_color t (text ++ 0 ∷ after) color ≡ ok (print_all t text color)
unfolding terminal_writestring_color
terminal_writestring_color_lem t text after color h =
    rw (strlen-length text after h) (terminal_write_lem t text (0 ∷ after) color)

pub terminal_writestring_lem :
    (t : Terminal) (text after : List ℕ)
    → IsText text
    → terminal_writestring t (text ++ 0 ∷ after)
      ≡ ok (print_all t text (vga_entry_color vga_color_light_grey vga_color_black))
unfolding terminal_writestring
terminal_writestring_lem t text after h =
    rw (strlen-length text after h) (terminal_write_lem t text (0 ∷ after) _)

-- What a key code shows: one character, or nothing if its low byte is 0.
unfoldable pub echo : ℕ → Terminal → Terminal
echo keycode t =
    if u8 keycode == 0
    then t
    else print_all t (u8 keycode ∷ []) (vga_entry_color vga_color_light_grey vga_color_black)

-- The string of the handler ends at the key's byte, if that is 0.
pub handle_keypress-echo :
    (t : Terminal) (event : Event) → handle_keypress t event ≡ ok (echo event.keycode t)
unfolding handle_keypress echo print_all
handle_keypress-echo t event = elim (Bool-cases (u8 event.keycode == 0)) [
  | inl e ↦ rw (e, ==→eq (u8 event.keycode) 0 e) (terminal_writestring_lem t [] (0 ∷ []) tt)
  | inr e ↦
      rw e
        (terminal_writestring_lem t (u8 event.keycode ∷ []) [] (==→ne (u8 event.keycode) 0 e, tt))
]
