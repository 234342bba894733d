-- ===== src/Spinlock.antt =====
-- spinlock.h: the lock, which is an `int`, and the processors that use it. Each of them is outside,
-- spins in `spin_lock`, or holds the lock; a step is one of them doing one atomic operation.
mod Examples
use low_flex_programming.Base.{
  ℕ, zero, suc, ◌+◌, ◌-◌, ◌≤◌, ◌≡◌, refl, ap, ◌∙◌, sym, List, [], ◌∷◌, ◌++◌, Bool, true, false,
  ◌==◌, if◌then◌else◌, arith, eq→==, ==→eq,
}

-- `__sync_bool_compare_and_swap`: the result, and what the place holds then.
unfoldable pub compare_and_swap : ℕ → ℕ → ℕ → Bool × ℕ
compare_and_swap p old new = if p == old then (true, new) else (false, p)

-- One round of the loop of `spin_lock`: whether the lock is taken, and the lock.
unfoldable pub spin_lock : ℕ → Bool × ℕ
spin_lock p = compare_and_swap p 0 1

unfoldable pub spin_unlock : ℕ → ℕ
spin_unlock p = 0

pub data Place : Type 0 where
  outside spinning holding : Place

pub record System : Type 0 where
  pub lock : ℕ
  pub processors : List Place

-- A step of the processor between `before` and `after`.
pub data Step : System → System → Type 0 where
  enter :
      (p : ℕ) (before after : List Place)
      → Step
          (record { lock = p; processors = before ++ outside ∷ after })
          (record { lock = p; processors = before ++ spinning ∷ after })
  retry :
      (p q : ℕ) (before after : List Place)
      → spin_lock p ≡ (false, q)
      → Step
          (record { lock = p; processors = before ++ spinning ∷ after })
          (record { lock = q; processors = before ++ spinning ∷ after })
  take :
      (p q : ℕ) (before after : List Place)
      → spin_lock p ≡ (true, q)
      → Step
          (record { lock = p; processors = before ++ spinning ∷ after })
          (record { lock = q; processors = before ++ holding ∷ after })
  leave :
      (p : ℕ) (before after : List Place)
      → Step
          (record { lock = p; processors = before ++ holding ∷ after })
          (record { lock = spin_unlock p; processors = before ++ outside ∷ after })

pub data Reach : System → System → Type 0 where
  here : (s : System) → Reach s s
  more : (s t u : System) → Reach s t → Step t u → Reach s u

-- How many processors hold the lock.
abbrev pub holders : List Place → ℕ
holders [] = 0
holders (outside ∷ places) = holders places
holders (spinning ∷ places) = holders places
holders (holding ∷ places) = suc (holders places)

holders-append :
    (before after : List Place) → holders (before ++ after) ≡ holders before + holders after
holders-append [] after = omega arith
holders-append (outside ∷ before) after = holders-append before after
holders-append (spinning ∷ before) after = holders-append before after
holders-append (holding ∷ before) after = omega (arith, holders-append before after)

-- The lock is 1 while a processor holds it and 0 otherwise, and no two hold it.
abbrev pub Guarded : System → Type 0
Guarded s = (s.lock ≡ holders s.processors) × (s.lock ≤ 1)

taken : (p q : ℕ) → spin_lock p ≡ (true, q) → (p ≡ 0) × (q ≡ 1)
unfolding spin_lock compare_and_swap
taken p q e = ground arith

kept : (p q : ℕ) → spin_lock p ≡ (false, q) → q ≡ p
unfolding spin_lock compare_and_swap
kept p q e = ground arith

step-Guarded : (s t : System) → Step s t → Guarded s → Guarded t
unfolding spin_unlock
step-Guarded s t (enter p before after) (e, le) = (
  omega
      (arith, e, holders-append before (outside ∷ after), holders-append before (spinning ∷ after)),
  le,
)
step-Guarded s t (retry p q before after same) (e, le) =
    let q' = kept p q same in (omega (arith, e, q'), omega (arith, q', le))
step-Guarded s t (take p q before after got) (e, le) =
    let (free, one) = taken p q got in
    (
      omega (
        arith,
        e,
        free,
        one,
        holders-append before (spinning ∷ after),
        holders-append before (holding ∷ after),
      ),
      omega (arith, one),
    )
step-Guarded s t (leave p before after) (e, le) = (
  omega (
    arith,
    e,
    le,
    holders-append before (holding ∷ after),
    holders-append before (outside ∷ after),
  ),
  omega arith,
)

-- From a free lock that no processor holds, whatever the processors do and in whatever order: the lock
-- is 1 exactly while one of them holds it, and never do two of them.
pub Reach-Guarded : (s t : System) → Reach s t → s.lock ≡ 0 → holders s.processors ≡ 0 → Guarded t
Reach-Guarded s t (here u) free none = (omega arith, omega arith)
Reach-Guarded s u (more r t v reach step) free none =
    step-Guarded t v step (Reach-Guarded r t reach free none)
