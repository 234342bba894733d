-- ===== src/EventBus.antt =====
-- event_bus.c and event_bus.h: the table of callbacks, and the delivery of an event to them.
-- A pointer to a function or to its argument is an address; NULL is 0. An `int` is its bit pattern.
pub mod Entries
pub mod Remove
pub mod Fire
mod Examples
use low_flex_programming.Base.{
  ℕ, zero, suc, ◌+◌, ◌-◌, ◌%◌, ◌^◌, List, Bool, ◌&&◌, ◌==◌, ltb, leb, if◌then◌else◌, get_elem?, set,
  Run, ok, panic, fault, ◌>>=◌, checked, add32, minus32,
}

-- callback_entry_t
pub record CallbackEntry : Type 0 where
  pub event_type : ℕ
  pub callback : ℕ
  pub arg : ℕ

abbrev pub callbacks_max_count : ℕ
callbacks_max_count = 1024

-- The two static variables: `known_callbacks`, an array of CALLBACKS_MAX_COUNT entries, and the
-- number of entries in use.
pub record Bus : Type 0 where
  pub known_callbacks : List CallbackEntry
  pub callbacks_count : ℕ

-- event_t: the header, and the data of the one kind of event that the kernel fires.
pub record Event : Type 0 where
  pub event_type : ℕ
  pub length : ℕ
  pub keycode : ℕ

abbrev pub event_key_press : ℕ
event_key_press = 1

abbrev pub is_empty : CallbackEntry → Bool
is_empty entry = entry.callback == 0

-- The result is the returned `int` and the new bus. The `return -1` behind `panic` is never reached.
unfoldable pub register_event_callback : Bus → ℕ → ℕ → ℕ → Run (ℕ × Bus)
register_event_callback b event_type callback arg =
    if leb callbacks_max_count b.callbacks_count
    then panic
    else ok (
      0,
      record b {
        known_callbacks =
            set b.known_callbacks b.callbacks_count
              (record { event_type = event_type; callback = callback; arg = arg });
        callbacks_count = add32 b.callbacks_count 1;
      },
    )

-- The loop of `remove_callback`, with the rounds that are left: `known_callbacks[i - 1] =
-- known_callbacks[i]`.
remove_loop : ℕ → List CallbackEntry → ℕ → Run (List CallbackEntry)
remove_loop zero table i = ok table
remove_loop (suc rounds) table i = do
  entry ← checked (get_elem? table i)
  remove_loop rounds (set table (i - 1) entry) (i + 1)

-- `callbacks_count` is left as it is.
pub remove_callback : Bus → ℕ → Run Bus
unfolding remove_loop
remove_callback b i = do
  table ← remove_loop (b.callbacks_count - (i + 1)) b.known_callbacks (i + 1)
  ok (record b { known_callbacks = table })

abbrev pub is_target : ℕ → ℕ → CallbackEntry → Bool
is_target callback arg entry = (entry.callback == callback) && (entry.arg == arg)

unregister_loop : ℕ → Bus → ℕ → ℕ → ℕ → Run (ℕ × Bus)
unregister_loop zero b i callback arg = ok (minus32 1, b)
unregister_loop (suc rounds) b i callback arg = do
  entry ← checked (get_elem? b.known_callbacks i)
  if is_target callback arg entry
      then (do b' ← remove_callback b i; ok (0, b'))
      else unregister_loop rounds b (i + 1) callback arg

pub unregister_event_callback : Bus → ℕ → ℕ → Run (ℕ × Bus)
unfolding unregister_loop
unregister_event_callback b callback arg = unregister_loop b.callbacks_count b 0 callback arg

-- What a call through a function pointer does is a parameter: it may change the bus and the rest
-- of the kernel, `W`.
module _ {W : Type 0} (invoke : ℕ → Event → ℕ → Bus × W → Run (Bus × W)) where
  -- `callbacks_count` is read anew in each round, since a callback may have changed it.
  fire_loop : ℕ → ℕ → Event → Bus × W → Run (ℕ × (Bus × W))
  fire_loop zero i event (b, w) = if ltb i b.callbacks_count then fault else ok (0, (b, w))
  fire_loop (suc fuel) i event (b, w) =
      if ltb i b.callbacks_count
      then (do
        entry ← checked (get_elem? b.known_callbacks i)
        s ←
            if entry.event_type == event.event_type
            then invoke entry.callback event entry.arg (b, w)
            else ok (b, w)
        fire_loop fuel (i + 1) event s)
      else ok (0, (b, w))

  -- The table has CALLBACKS_MAX_COUNT entries, so more rounds would leave it.
  pub fire_event : Event → Bus × W → Run (ℕ × (Bus × W))
  unfolding fire_loop
  fire_event event s = fire_loop callbacks_max_count 0 event s
