-- ===== src/EventBus/Remove.antt =====
-- What `unregister_event_callback` does to the callbacks in use.
use Prim.Native.Nat.add
use low_flex_programming.Base.{
  ℕ, suc, ◌+◌, ◌-◌, ◌≡◌, refl, ap, List, [], ◌∷◌, ◌++◌, length, set, set-middle, get_elem?,
  get_elem?-middle, some, length-append, append_assoc, ok, arith, true, false, ◌>>=◌, minus32, ◌∙◌,
  sym,
}
use low_flex_programming.EventBus.{
  CallbackEntry, Bus, is_target, remove_loop, remove_callback, unregister_loop,
  unregister_event_callback, register_event_callback,
}
use low_flex_programming.EventBus.Entries.{Holds, entry, register-append}

-- The entries from a removed one on, moved down by one: the last of them stands there twice.
unfoldable pub squeeze : CallbackEntry → List CallbackEntry → List CallbackEntry
squeeze e [] = e ∷ []
squeeze e (y ∷ ys) = y ∷ squeeze y ys

pub length-squeeze :
    (e : CallbackEntry) (ys : List CallbackEntry) → length (squeeze e ys) ≡ suc (length ys)
unfolding squeeze
length-squeeze e [] = refl
length-squeeze e (y ∷ ys) = ap suc (length-squeeze y ys)

get_elem?-next :
    (xs : List CallbackEntry) (e y : CallbackEntry) (r : List CallbackEntry)
    → get_elem? (xs ++ e ∷ y ∷ r) (length xs + 1) ≡ some y
get_elem?-next [] e y r = refl
get_elem?-next (x ∷ xs) e y r =
    let shift : suc (length xs) + 1 ≡ suc (length xs + 1) = omega arith in
    rw shift (get_elem?-next xs e y r)

remove_loop-squeeze :
    (xs : List CallbackEntry) (e : CallbackEntry) (ys spare : List CallbackEntry)
    → remove_loop (length ys) (xs ++ e ∷ (ys ++ spare)) (length xs + 1)
      ≡ ok (xs ++ (squeeze e ys ++ spare))
unfolding remove_loop squeeze
remove_loop-squeeze xs e [] spare = refl
remove_loop-squeeze xs e (y ∷ ys) spare = rw (
  get_elem?-next xs e y (ys ++ spare),
  moved,
  index,
  remove_loop-squeeze (xs ++ y ∷ []) y ys spare,
  append_assoc,
)
  where
    moved :
        set (xs ++ e ∷ y ∷ (ys ++ spare)) (length xs + 1 - 1) y
        ≡ (xs ++ y ∷ []) ++ y ∷ (ys ++ spare)
    moved =
        let back : length xs + 1 - 1 ≡ length xs = omega arith in
        rw (back, append_assoc) (set-middle xs e y (y ∷ (ys ++ spare)))

    index : length xs + 1 + 1 ≡ length (xs ++ y ∷ []) + 1
    index = omega (arith, length-append xs (y ∷ []))

-- No entry is a target.
abbrev pub Without : ℕ → ℕ → List CallbackEntry → Type 0
Without cb arg [] = Unit
Without cb arg (e ∷ xs) = (is_target cb arg e ≡ false) × Without cb arg xs

module _ (b : Bus) (cb arg : ℕ) where
  loop-hit :
      (rounds i : ℕ) (e : CallbackEntry)
      → get_elem? b.known_callbacks i ≡ some e
      → is_target cb arg e ≡ true
      → unregister_loop (suc rounds) b i cb arg ≡ (remove_callback b i >>= λ b'. ok (0, b'))
  unfolding unregister_loop
  loop-hit rounds i e g hit = rw (g, hit)

  loop-miss :
      (rounds i : ℕ) (e : CallbackEntry)
      → get_elem? b.known_callbacks i ≡ some e
      → is_target cb arg e ≡ false
      → unregister_loop (suc rounds) b i cb arg ≡ unregister_loop rounds b (i + 1) cb arg
  unfolding unregister_loop
  loop-miss rounds i e g miss = rw (g, miss)

  at_front :
      (before : List CallbackEntry) (e : CallbackEntry) (rest : List CallbackEntry) (i : ℕ)
      → b.known_callbacks ≡ before ++ e ∷ rest
      → i ≡ length before
      → get_elem? b.known_callbacks i ≡ some e
  at_front before e rest i t ei = rw (t, ei) (get_elem?-middle before e rest)

  -- The search stands behind `before` and passes over `xs`.
  loop-found :
      (before xs : List CallbackEntry) (e : CallbackEntry) (rest : List CallbackEntry) (i k : ℕ)
      → b.known_callbacks ≡ before ++ (xs ++ e ∷ rest)
      → i ≡ length before
      → Without cb arg xs
      → is_target cb arg e ≡ true
      → unregister_loop (length xs + suc k) b i cb arg
        ≡ (remove_callback b (i + length xs) >>= λ b'. ok (0, b'))
  loop-found before [] e rest i k t ei w hit =
      let er : 0 + suc k ≡ suc k = omega arith in
      let ej : i + 0 ≡ i = omega arith in
      rw (er, ej) (loop-hit k i e (at_front before e rest i t ei) hit)
  loop-found before (x ∷ xs) e rest i k t ei w hit =
      let er : suc (length xs) + suc k ≡ suc (length xs + suc k) = omega arith in
      let ej : i + suc (length xs) ≡ i + 1 + length xs = omega arith in
      rw (er, ej)
        (loop-miss (length xs + suc k) i x (at_front before x (xs ++ e ∷ rest) i t ei) w.0
          ∙ loop-found (before ++ x ∷ []) xs e rest (i + 1) k
              (t ∙ sym (append_assoc before (x ∷ []) (xs ++ e ∷ rest)))
              (omega (arith, length-append before (x ∷ []))) w.1 hit)

  loop-none :
      (before xs rest : List CallbackEntry) (i : ℕ)
      → b.known_callbacks ≡ before ++ (xs ++ rest)
      → i ≡ length before
      → Without cb arg xs
      → unregister_loop (length xs) b i cb arg ≡ ok (minus32 1, b)
  unfolding unregister_loop
  loop-none before [] rest i t ei w = refl
  loop-none before (x ∷ xs) rest i t ei w =
      loop-miss (length xs) i x (at_front before x (xs ++ rest) i t ei) w.0
      ∙ loop-none (before ++ x ∷ []) xs rest (i + 1)
          (t ∙ sym (append_assoc before (x ∷ []) (xs ++ rest)))
          (omega (arith, length-append before (x ∷ []))) w.1

  -- With no entry in use for the callback and its argument, `unregister_event_callback` returns -1
  -- and the table stays as it is.
  pub unregister-none :
      (entries spare : List CallbackEntry)
      → Holds b entries spare
      → Without cb arg entries
      → unregister_event_callback b cb arg ≡ ok (minus32 1, b)
  unfolding unregister_event_callback
  unregister-none entries spare h w =
      ap (λ n. unregister_loop n b 0 cb arg) h.count ∙ loop-none [] entries spare 0 h.table refl w

  remove_callback-squeeze :
      (xs : List CallbackEntry) (e : CallbackEntry) (ys spare : List CallbackEntry)
      → Holds b (xs ++ e ∷ ys) spare
      → remove_callback b (length xs)
        ≡ ok (record b { known_callbacks = xs ++ (squeeze e ys ++ spare) })
  unfolding remove_callback
  remove_callback-squeeze xs e ys spare h =
      let rounds : b.callbacks_count - (length xs + 1) ≡ length ys =
        omega (arith, h.count, length-append xs (e ∷ ys)) in
      rw (rounds, h.table, append_assoc, remove_loop-squeeze xs e ys spare)

  -- `unregister_event_callback` returns 0 where an entry in use matches: the first such entry goes, those behind it move down, the last one stays behind as
  -- its own copy, and the number of entries in use stays as it was.
  pub unregister-squeeze :
      (xs : List CallbackEntry) (e : CallbackEntry) (ys spare : List CallbackEntry)
      → Holds b (xs ++ e ∷ ys) spare
      → Without cb arg xs
      → is_target cb arg e ≡ true
      → (b' : Bus) × (unregister_event_callback b cb arg ≡ ok (0, b'))
        × Holds b' (xs ++ squeeze e ys) spare
  unfolding unregister_event_callback
  unregister-squeeze xs e ys spare h w hit = (
    record b { known_callbacks = xs ++ (squeeze e ys ++ spare) },
    ap (λ n. unregister_loop n b 0 cb arg) rounds
        ∙ loop-found [] xs e (ys ++ spare) 0 (length ys) table refl w hit
        ∙ rw (add.zero, remove_callback-squeeze xs e ys spare h),
    record {
      table = sym (append_assoc xs (squeeze e ys) spare);
      count = omega (
        arith,
        h.count,
        length-append xs (e ∷ ys),
        length-append xs (squeeze e ys),
        length-squeeze e ys,
      );
      size = omega (
        arith,
        h.size,
        length-append xs (e ∷ ys),
        length-append xs (squeeze e ys),
        length-squeeze e ys,
      );
    },
  )
    where
      rounds : b.callbacks_count ≡ length xs + suc (length ys)
      rounds = omega (arith, h.count, length-append xs (e ∷ ys))

      table : b.known_callbacks ≡ xs ++ e ∷ (ys ++ spare)
      table = h.table ∙ append_assoc xs (e ∷ ys) spare

Without-hit : (ty cb arg : ℕ) → is_target cb arg (entry ty cb arg) ≡ true
Without-hit ty cb arg = ground arith

-- A callback that is not in use with this argument, with a slot spare: once it is registered, and
-- unregistered at once, it is still in use. The call that should remove it returns 0 and leaves the
-- entries as registration made them.
pub unregister-register :
    (b : Bus) (entries spare : List CallbackEntry) (slot : CallbackEntry) (ty cb arg : ℕ)
    → Holds b entries (slot ∷ spare)
    → Without cb arg entries
    → (b₁ : Bus) × (b₂ : Bus) × (register_event_callback b ty cb arg ≡ ok (0, b₁))
      × (unregister_event_callback b₁ cb arg ≡ ok (0, b₂))
      × Holds b₂ (entries ++ entry ty cb arg ∷ []) spare
unfolding squeeze
unregister-register b entries spare slot ty cb arg h w =
    let (b₁, done, h₁) = register-append b entries spare slot ty cb arg h in
    let (b₂, gone, h₂) =
      unregister-squeeze b₁ cb arg entries (entry ty cb arg) [] spare h₁ w
        (Without-hit ty cb arg) in
    (b₁, b₂, done, gone, h₂)
