-- ===== src/Keyboard/Irq.antt =====
-- The interrupt of the keyboard: from a scan code to the screen, over the event bus.
use low_flex_programming.Base.{
  ℕ, ◌≡◌, refl, ◌==◌, if◌then◌else◌, List, [], ◌∷◌, Run, ok, fault, ◌>>=◌, eq→==,
}
use low_flex_programming.EventBus.{Bus, CallbackEntry, Event, event_key_press, fire_event}
use low_flex_programming.EventBus.Entries.{Holds, entry}
use low_flex_programming.EventBus.Fire.{deliver, fire_event-deliver}
use low_flex_programming.Terminal.{Terminal, handle_keypress}
use low_flex_programming.Terminal.Print.{echo, handle_keypress-echo}
use low_flex_programming.Apic.{Lapic, apic_eoi}
use low_flex_programming.Keyboard.{readcode}

-- A call through a function pointer. The kernel registers one function, `handle_keypress`, at the
-- address `keypress`.
pub call : ℕ → ℕ → Event → ℕ → Bus × Terminal → Run (Bus × Terminal)
call keypress callback event arg (b, t) =
    if callback == keypress then (handle_keypress t event >>= λ t'. ok (b, t')) else fault

abbrev sizeof_keyboard_event : ℕ
sizeof_keyboard_event = 12

abbrev pub key_event : ℕ → Event
key_event keycode = record {
  event_type = event_key_press;
  length = sizeof_keyboard_event;
  keycode = keycode;
}

-- The state that the handler changes.
pub record KeyboardState : Type 0 where
  pub shift : ℕ
  pub lapic : Lapic
  pub bus : Bus
  pub terminal : Terminal

pub keyboard_irq : ℕ → ℕ → ℕ → KeyboardState → Run KeyboardState
keyboard_irq keypress st code k = do
  (keycode, shift) ← readcode k.shift st code
  let lapic = apic_eoi k.lapic
  (_, (bus, terminal)) ← fire_event (call keypress) (key_event keycode) (k.bus, k.terminal)
  ok (record { shift = shift; lapic = lapic; bus = bus; terminal = terminal })

-- The callback of the terminal, as a step of the fold over callbacks.
abbrev act : ℕ → Event → ℕ → Terminal → Terminal
act callback event arg t = echo event.keycode t

call-echo :
    (keypress : ℕ) (event : Event) (arg : ℕ) (b : Bus) (t : Terminal)
    → call keypress keypress event arg (b, t) ≡ ok (b, echo event.keycode t)
unfolding call
call-echo keypress event arg b t = rw (eq→== keypress keypress refl, handle_keypress-echo t event)

-- With the terminal's handler alone on the bus, an interrupt at which a scan code is read gives
-- the new modifiers, acknowledges the interrupt once, leaves the bus as it is, and shows the key
-- code's low byte on the screen unless that is 0.
pub keyboard_irq-echo :
    (keypress arg st code keycode shift : ℕ) (k : KeyboardState) (spare : List CallbackEntry)
    → Holds k.bus (entry event_key_press keypress arg ∷ []) spare
    → readcode k.shift st code ≡ ok (keycode, shift)
    → keyboard_irq keypress st code k
      ≡ ok (record {
        shift = shift;
        lapic = apic_eoi k.lapic;
        bus = k.bus;
        terminal = echo keycode k.terminal;
      })
unfolding keyboard_irq deliver
keyboard_irq-echo keypress arg st code keycode shift k spare h run = rw (
  run,
  fire_event-deliver (call keypress) act k.bus (entry event_key_press keypress arg ∷ []) spare
      (key_event keycode) k.terminal h
      (λ t. call-echo keypress (key_event keycode) arg k.bus t, tt),
)
