-- ===== src/Apic/Calibrate.antt =====
-- calibrate_apic_timer: the timer of the local controller is measured against the interval timer (the
-- PIT), which is waited for by polling port 0x61.
use low_flex_programming.Base.{
  ℕ, ◌+◌, ◌-◌, ◌*◌, ◌/◌, ◌^◌, ◌≤◌, ◌<◌, ◌≡◌, refl, ap, ◌∙◌, List, [], ◌∷◌, ◌++◌, length, true,
  false, ◌==◌, if◌then◌else◌, Run, ok, fault, ◌>>=◌, bit_or, bit_and, has, u8, add32, sub32, ◌>>>◌,
  arith, subst, ne→==, drop,
}
use low_flex_programming.Base.Bits.{bit_and-mask}
use low_flex_programming.Apic.{
  Lapic, lapic_write, lapic_read, apic_tmrdiv, apic_tmrinitcnt, apic_tmrcurrcnt, apic_lvt_tmr,
  apic_disable, tmr_periodic,
}

abbrev pub Ports : Type 0
Ports = List (ℕ × ℕ)

pub outb : ℕ → ℕ → Ports → Ports
outb port value ports = (port, u8 value) ∷ ports

-- A division by zero traps. `status` is what port 0x61 has.
pub pit_prepare_sleep : ℕ → ℕ → Ports → Run Ports
pit_prepare_sleep mcsec status ports = do
  let ports = outb 0x61 (bit_or (bit_and status 0xfd) 1) ports
  let ports = outb 0x43 0xb2 ports
  tick_cnt ← if mcsec / 100 == 0 then fault else ok (1193182 / (mcsec / 100))
  let ports = outb 0x42 (bit_and tick_cnt 0xff) ports
  ok (outb 0x42 (tick_cnt >>> 8) ports)

-- The loop of `pit_perform_sleep`, over the values that port 0x61 takes, read after read; a timer
-- that never clears the bit uses them up.
pub pit_wait : List ℕ → ℕ → Run ℕ
pit_wait [] cnt = fault
pit_wait (status ∷ statuses) cnt =
    let rest = pit_wait statuses (add32 cnt 1) in if has status 0x20 then rest else ok cnt

pub pit_perform_sleep : ℕ → List ℕ → Ports → Run (ℕ × Ports)
pit_perform_sleep status statuses ports = do
  let st = bit_and status 0xfe
  let ports = outb 0x61 st ports
  let ports = outb 0x61 (bit_or st 1) ports
  cnt ← pit_wait statuses 0
  ok (cnt, ports)

-- What the devices answer: port 0x61 before each of the two steps and during the wait, and the
-- registers of the local controller behind it.
pub record Measurement : Type 0 where
  pub prepare_status : ℕ
  pub perform_status : ℕ
  pub statuses : List ℕ
  pub registers : ℕ → ℕ

pub record Timers : Type 0 where
  pub lapic : Lapic
  pub ports : Ports

pub calibrate_apic_timer : Measurement → Timers → Run Timers
calibrate_apic_timer answers t = do
  let lapic = lapic_write t.lapic apic_tmrdiv 3
  ports ← pit_prepare_sleep 10000 answers.prepare_status t.ports
  let lapic = lapic_write lapic apic_tmrinitcnt 0xffffffff
  (cnt, ports) ← pit_perform_sleep answers.perform_status answers.statuses ports
  let lapic = lapic_write lapic apic_lvt_tmr apic_disable
  let ticks_in_10ms = sub32 0xffffffff (lapic_read answers.registers apic_tmrcurrcnt)
  let lapic = lapic_write lapic apic_lvt_tmr (bit_or 32 tmr_periodic)
  let lapic = lapic_write lapic apic_tmrdiv 3
  let lapic = lapic_write lapic apic_tmrinitcnt (ticks_in_10ms / 10)
  ok (record { lapic = lapic; ports = ports })

-- Statuses in which the bit that is waited for is set.
abbrev pub Set : List ℕ → Type 0
Set [] = Unit
Set (status ∷ statuses) = (has status 0x20 ≡ true) × Set statuses

pit_wait-Set :
    (waits rest : List ℕ) (status cnt : ℕ)
    → Set waits
    → has status 0x20 ≡ false
    → length waits + cnt < 2 ^ 32
    → pit_wait (waits ++ status ∷ rest) cnt ≡ ok (length waits + cnt)
unfolding pit_wait
pit_wait-Set [] rest status cnt h clear lt = rw clear (ap ok (omega arith))
pit_wait-Set (w ∷ waits) rest status cnt h clear lt =
    let next : add32 cnt 1 ≡ cnt + 1 = omega arith in
    rw (h.0, next)
      (pit_wait-Set waits rest status (cnt + 1) h.1 clear (omega arith) ∙ ap ok (omega arith))

-- The low byte and then the high byte of the count, as the interval timer takes them, the last write
-- first.
abbrev pub count_written : Ports → ℕ
count_written [] = 0
count_written ((p, high) ∷ []) = 0
count_written ((p, high) ∷ (q, low) ∷ ports) = high * 2 ^ 8 + low

small_count : (k : ℕ) → 1193182 / (19 + k) < 2 ^ 16
small_count k = omega arith

-- For 1900 microseconds or more, the interval timer gets a count of 16 bits, 1193182 divided by the
-- hundreds of microseconds.
pub pit_prepare_sleep-count :
    (mcsec status : ℕ) (ports : Ports)
    → 1900 ≤ mcsec
    → (ports' : Ports) × (pit_prepare_sleep mcsec status ports ≡ ok ports')
      × (count_written ports' ≡ 1193182 / (mcsec / 100))
unfolding pit_prepare_sleep outb
pit_prepare_sleep-count mcsec status ports long =
    let some_hundreds : (mcsec / 100 == 0) ≡ false =
      ne→== (mcsec / 100) 0 (λ e. absurd (omega arith)) in
    let count = 1193182 / (mcsec / 100) in
    let hundreds : 19 + (mcsec / 100 - 19) ≡ mcsec / 100 = omega arith in
    let small : count < 2 ^ 16 =
      subst (λ h. 1193182 / h < 2 ^ 16) hundreds (small_count (mcsec / 100 - 19)) in
    (
      outb 0x42 (count >>> 8) (
          outb 0x42 (bit_and count 0xff)
            (outb 0x43 0xb2 (outb 0x61 (bit_or (bit_and status 0xfd) 1) ports))),
      rw some_hundreds refl,
      omega (arith, bit_and-mask 8 count),
    )

-- Once port 0x61 has the awaited bit clear, after fewer than 2 ^ 32 reads with the bit set, the
-- calibration returns. It has written the count 11931 to the interval timer, and the local timer is
-- started at 2 ^ 32 - 1, stopped, and then set to repeat with a tenth of the difference between that
-- and what its register had at the end.
pub calibrate_apic_timer-tenth :
    (answers : Measurement) (t : Timers) (waits rest : List ℕ) (status count : ℕ)
    → answers.statuses ≡ waits ++ status ∷ rest
    → Set waits
    → has status 0x20 ≡ false
    → length waits < 2 ^ 32
    → answers.registers 0xe4 ≡ count
    → count < 2 ^ 32
    → (t' : Timers) × (calibrate_apic_timer answers t ≡ ok t')
      × (t'.lapic
          ≡ (0xe0, (2 ^ 32 - 1 - count) / 10)
            ∷ (0xf8, 3)
            ∷ (0xc8, 0x20020)
            ∷ (0xc8, 0x10000)
            ∷ (0xe0, 2 ^ 32 - 1)
            ∷ (0xf8, 3)
            ∷ t.lapic)
      × (count_written (drop 2 t'.ports) ≡ 11931)
unfolding calibrate_apic_timer pit_prepare_sleep pit_perform_sleep outb lapic_write
calibrate_apic_timer-tenth answers t waits rest status count answered h clear lt read small =
    let waited = pit_wait-Set waits rest status 0 h clear (omega arith) in
    let ticks : sub32 0xffffffff count ≡ 2 ^ 32 - 1 - count = omega arith in
    let cnt : length waits + 0 ≡ length waits = omega arith in
    let st = bit_and answers.perform_status 0xfe in
    (
      record {
        lapic =
            (0xe0, sub32 0xffffffff (answers.registers 0xe4) / 10)
            ∷ (0xf8, 3)
            ∷ (0xc8, 0x20020)
            ∷ (0xc8, 0x10000)
            ∷ (0xe0, 2 ^ 32 - 1)
            ∷ (0xf8, 3)
            ∷ t.lapic;
        ports =
            (0x61, u8 (bit_or st 1))
            ∷ (0x61, u8 st)
            ∷ (0x42, 46)
            ∷ (0x42, 155)
            ∷ (0x43, 0xb2)
            ∷ (0x61, u8 (bit_or (bit_and answers.prepare_status 0xfd) 1))
            ∷ t.ports;
      },
      rw (answered, waited) refl,
      rw (read, ticks) refl,
      refl,
    )
