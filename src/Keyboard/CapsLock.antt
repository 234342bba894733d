-- ===== src/Keyboard/CapsLock.antt =====
-- What the caps lock does to the characters.
use low_flex_programming.Base.{
  has, ℕ, ◌+◌, ◌-◌, ◌<◌, ◌≡◌, ◌≢◌, refl, Bool, true, false, ◌&&◌, ◌||◌, ◌==◌, leb, if◌then◌else◌,
  Run, ok, panic, fault, arith,
}
use low_flex_programming.Base.Tables.{table_holds, table_sound}
use low_flex_programming.Keyboard.{
  readcode, press, release, charcode, swap_case, shiftcode, togglecode, normalmap, shiftmap, ctlmap,
  capslock,
}

-- The other case of an ASCII letter; any other character stays.
unfoldable pub other_case : ℕ → ℕ
other_case c =
    if leb b'A' c && leb c b'Z' then c + 32 else if leb b'a' c && leb c b'z' then c - 32 else c

abbrev swapped : Run (ℕ × ℕ) → Run (ℕ × ℕ) → Bool
swapped (ok r) (ok z) = (z.0 == other_case r.0) && (z.1 == r.1 + 8)
swapped _ _ = false

abbrev swaps : ℕ → ℕ → Bool
swaps s code =
    has s capslock || (code == 0x3a) || swapped (readcode s 1 code) (readcode (s + 8) 1 code)

swaps_table : table_holds 120 (λ s. table_holds 256 (λ code. swaps s code)) ≡ true
unfolding table_holds readcode press release charcode swap_case shiftcode togglecode normalmap
    shiftmap ctlmap other_case
swaps_table = refl

-- With the caps lock on, the same scan code gives the same character in the other case, and the
-- modifiers but for the lock's own bit go the same way. (0x3a is the caps lock key itself.)
pub readcode-other_case :
    (s code : ℕ)
    → s < 120
    → code < 256
    → has s capslock ≡ false
    → code ≢ 0x3a
    → (c : ℕ) × (s' : ℕ) × (readcode s 1 code ≡ ok (c, s'))
      × (readcode (s + 8) 1 code ≡ ok (other_case c, s' + 8))
readcode-other_case s code hs hc off ne =
    from_runs (readcode s 1 code) (readcode (s + 8) 1 code) (ground (arith, checked_here))
  where
    checked_here : swaps s code ≡ true
    checked_here =
        table_sound 256 (λ code. swaps s code) code
          (table_sound 120 (λ s. table_holds 256 (λ code. swaps s code)) s swaps_table hs) hc

    from_runs :
        (r z : Run (ℕ × ℕ))
        → swapped r z ≡ true
        → (c : ℕ) × (s' : ℕ) × (r ≡ ok (c, s')) × (z ≡ ok (other_case c, s' + 8))
    from_runs (ok (c, s')) (ok z) h = (c, s', refl, ground arith)
    from_runs (ok r) panic h = absurd (cc)
    from_runs (ok r) fault h = absurd (cc)
    from_runs panic z h = absurd (cc)
    from_runs fault z h = absurd (cc)
