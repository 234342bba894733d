-- ===== src/EventBus/Fire.antt =====
-- `fire_event` against a plain fold over the callbacks in use.
use Prim.Native.Nat.add
use low_flex_programming.Base.{
  ℕ, zero, suc, ◌+◌, ◌≡◌, refl, ap, sym, ◌∙◌, List, [], ◌∷◌, ◌++◌, length, get_elem?, some,
  get_elem?-middle, length-append, append_assoc, Run, ok, arith, ◌==◌, if◌then◌else◌, true, false,
  Bool-cases, inl, inr, ltb, lt→ltb, le→ltb,
}
use low_flex_programming.EventBus.{CallbackEntry, Bus, Event, fire_loop, fire_event}
use low_flex_programming.EventBus.Entries.{Holds}

-- The callbacks registered for the type of the event are called, each with its argument, in the
-- order of the table.
unfoldable pub deliver {ℓ} :
    {W : Type ℓ} → (ℕ → Event → ℕ → W → W) → List CallbackEntry → Event → W → W
deliver act [] event w = w
deliver act (e ∷ es) event w =
    let w' = if e.event_type == event.event_type then act e.callback event e.arg w else w in
    deliver act es event w'

-- The callbacks of `entries` return, leave the bus alone, and do what `act` says.
abbrev pub Quiet :
    {W : Type 0}
    → (ℕ → Event → ℕ → Bus × W → Run (Bus × W))
    → (ℕ → Event → ℕ → W → W)
    → Bus
    → Event
    → List CallbackEntry
    → Type 0
Quiet invoke act b event [] = Unit
Quiet {W} invoke act b event (e ∷ es) =
    ((w : W) → invoke e.callback event e.arg (b, w) ≡ ok (b, act e.callback event e.arg w))
    × Quiet invoke act b event es

module _ {W : Type 0} (invoke : ℕ → Event → ℕ → Bus × W → Run (Bus × W))
    (act : ℕ → Event → ℕ → W → W) where
  fire_loop-end :
      (k i : ℕ) (b : Bus) (event : Event) (w : W)
      → ltb i b.callbacks_count ≡ false
      → fire_loop invoke k i event (b, w) ≡ ok (0, (b, w))
  unfolding fire_loop
  fire_loop-end zero i b event w h = rw h
  fire_loop-end (suc k) i b event w h = rw h

  fire_loop-deliver :
      (before xs spare : List CallbackEntry) (b : Bus) (i k : ℕ) (event : Event) (w : W)
      → b.known_callbacks ≡ before ++ (xs ++ spare)
      → i ≡ length before
      → b.callbacks_count ≡ length before + length xs
      → Quiet invoke act b event xs
      → fire_loop invoke (length xs + k) i event (b, w) ≡ ok (0, (b, deliver act xs event w))
  unfolding fire_loop deliver
  fire_loop-deliver before [] spare b i k event w t ei c q =
      rw add.zero (fire_loop-end k i b event w (le→ltb _ _ (omega (arith, c, ei))))
  fire_loop-deliver before (x ∷ xs) spare b i k event w t ei c q =
      let er : suc (length xs) + k ≡ suc (length xs + k) = omega arith in
      let more : ltb i b.callbacks_count ≡ true = lt→ltb _ _ (omega (arith, c, ei)) in
      let here : get_elem? b.known_callbacks i ≡ some x =
        rw (t, ei) (get_elem?-middle before x (xs ++ spare)) in
      let rest = λ (w' : W).
        fire_loop-deliver (before ++ x ∷ []) xs spare b (i + 1) k event w'
          (t ∙ sym (append_assoc before (x ∷ []) (xs ++ spare)))
          (omega (arith, length-append before (x ∷ [])))
          (omega (arith, length-append before (x ∷ []))) q.1 in
      rw (er, more, here)
        (elim (Bool-cases (x.event_type == event.event_type)) [
          | inl hit ↦ rw (hit, q.0 w) (rest (act x.callback event x.arg w))
          | inr miss ↦ rw miss (rest w)
        ])

  -- Callbacks that return and leave the table alone: `fire_event` returns 0, changes nothing of the
  -- table, and has the effect of exactly the callbacks for the event's type, in their order.
  pub fire_event-deliver :
      (b : Bus) (entries spare : List CallbackEntry) (event : Event) (w : W)
      → Holds b entries spare
      → Quiet invoke act b event entries
      → fire_event invoke event (b, w) ≡ ok (0, (b, deliver act entries event w))
  unfolding fire_event
  fire_event-deliver b entries spare event w h q =
      ap (λ n. fire_loop invoke n 0 event (b, w)) (sym h.size)
      ∙ fire_loop-deliver [] entries spare b 0 (length spare) event w h.table refl
          (omega (arith, h.count)) q
