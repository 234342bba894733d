-- ===== src/EventBus/Examples.antt =====
-- The theorems on the event bus at a table with two callbacks.
use low_flex_programming.Base.{
  ℕ, ◌≡◌, refl, List, [], ◌∷◌, ◌++◌, Run, ok, arith, replicate, length-replicate,
}
use low_flex_programming.EventBus.{
  CallbackEntry, Bus, Event, register_event_callback, unregister_event_callback, fire_event,
}
use low_flex_programming.EventBus.Entries.{Holds, entry, register-append}
use low_flex_programming.EventBus.Remove.{unregister-register}
use low_flex_programming.EventBus.Fire.{deliver, fire_event-deliver}

abbrev unused : CallbackEntry
unused = entry 0 0 0

abbrev two : List CallbackEntry
two = entry 1 500 7 ∷ entry 1 600 8 ∷ []

abbrev spare : List CallbackEntry
spare = replicate 1021 unused

abbrev bus : Bus
bus = record { known_callbacks = two ++ unused ∷ spare; callbacks_count = 2 }

bus-Holds : Holds bus two (unused ∷ spare)
bus-Holds = record {
  table = refl;
  count = refl;
  size = omega (arith, length-replicate 1021 unused);
}

abbrev key : Event
key = record { event_type = 1; length = 12; keycode = 97 }

register-append_example :
    (b' : Bus) × (register_event_callback bus 1 700 9 ≡ ok (0, b'))
    × Holds b' (two ++ entry 1 700 9 ∷ []) spare
register-append_example = register-append bus two spare unused 1 700 9 bus-Holds

unregister-register_example :
    (b₁ : Bus) × (b₂ : Bus) × (register_event_callback bus 1 700 9 ≡ ok (0, b₁))
    × (unregister_event_callback b₁ 700 9 ≡ ok (0, b₂))
    × Holds b₂ (two ++ entry 1 700 9 ∷ []) spare
unregister-register_example =
    unregister-register bus two spare unused 1 700 9 bus-Holds (refl, (refl, tt))

-- A callback that logs its argument.
abbrev log : ℕ → Event → ℕ → List ℕ → List ℕ
log cb event arg w = arg ∷ w

abbrev call : ℕ → Event → ℕ → Bus × List ℕ → Run (Bus × List ℕ)
call cb event arg (b, w) = ok (b, log cb event arg w)

fire_event-deliver_example : fire_event call key (bus, []) ≡ ok (0, (bus, 8 ∷ 7 ∷ []))
unfolding deliver
fire_event-deliver_example =
    fire_event-deliver call log bus two (unused ∷ spare) key [] bus-Holds
      (λ w. refl, (λ w. refl, tt))
