-- ===== src/EventBus/Entries.antt =====
-- The callbacks in use, in order, and how registration extends them.
use low_flex_programming.Base.{
  ℕ, ◌+◌, ◌≤◌, ◌≡◌, List, [], ◌∷◌, ◌++◌, length, set, set-middle, length-append, append_assoc, ok,
  panic, arith,
}
use low_flex_programming.EventBus.{CallbackEntry, Bus, callbacks_max_count, register_event_callback}

-- `b` holds the callbacks `entries`, in the order of the table, with `spare` behind them.
pub record Holds (b : Bus) (entries spare : List CallbackEntry) : Type 0 where
  pub table : b.known_callbacks ≡ entries ++ spare
  pub count : b.callbacks_count ≡ length entries
  pub size : length entries + length spare ≡ callbacks_max_count

abbrev pub entry : ℕ → ℕ → ℕ → CallbackEntry
entry ty cb arg = record { event_type = ty; callback = cb; arg = arg }

pub Holds-append :
    (b : Bus) (entries spare : List CallbackEntry) (slot e : CallbackEntry)
    → Holds b entries (slot ∷ spare)
    → Holds
        (record {
          known_callbacks = set b.known_callbacks b.callbacks_count e;
          callbacks_count = length entries + 1;
        })
        (entries ++ e ∷ [])
        spare
Holds-append b entries spare slot e h = record {
  table = rw (h.table, h.count, append_assoc) (set-middle entries slot e spare);
  count = omega (arith, length-append entries (e ∷ []));
  size = omega (arith, length-append entries (e ∷ []), h.size);
}

-- While a slot is spare, `register_event_callback` returns 0 and appends one entry behind those in use.
pub register-append :
    (b : Bus) (entries spare : List CallbackEntry) (slot : CallbackEntry) (ty cb arg : ℕ)
    → Holds b entries (slot ∷ spare)
    → (b' : Bus) × (register_event_callback b ty cb arg ≡ ok (0, b'))
      × Holds b' (entries ++ entry ty cb arg ∷ []) spare
unfolding register_event_callback
register-append b entries spare slot ty cb arg h = (
  record {
    known_callbacks = set b.known_callbacks b.callbacks_count (entry ty cb arg);
    callbacks_count = length entries + 1;
  },
  ground arith,
  Holds-append b entries spare slot (entry ty cb arg) h,
)

pub register-full :
    (b : Bus) (ty cb arg : ℕ)
    → callbacks_max_count ≤ b.callbacks_count
    → register_event_callback b ty cb arg ≡ panic
unfolding register_event_callback
register-full b ty cb arg h = ground arith
