-- ===== src/Spinlock/Examples.antt =====
-- Two processors: one takes the lock, and the other spins.
use low_flex_programming.Base.{refl, [], ◌∷◌}
use low_flex_programming.Spinlock.{
  System, outside, spinning, holding, Reach, Guarded, Reach-Guarded, spin_lock, compare_and_swap,
  Step,
}

abbrev start : System
start = record { lock = 0; processors = outside ∷ outside ∷ [] }

abbrev first_spins : System
first_spins = record { lock = 0; processors = spinning ∷ outside ∷ [] }

abbrev both_spin : System
both_spin = record { lock = 0; processors = spinning ∷ spinning ∷ [] }

abbrev first_holds : System
first_holds = record { lock = 1; processors = holding ∷ spinning ∷ [] }

run : Reach start first_holds
unfolding spin_lock compare_and_swap
run =
    Reach.more start both_spin first_holds
      (Reach.more start first_spins both_spin
        (Reach.more start start first_spins (Reach.here start) (Step.enter 0 [] (outside ∷ [])))
        (Step.enter 0 (spinning ∷ []) []))
      (Step.take 0 1 [] (spinning ∷ []) refl)

Reach-Guarded_example : Guarded first_holds
Reach-Guarded_example = Reach-Guarded start first_holds run refl refl
