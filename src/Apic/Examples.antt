-- ===== src/Apic/Examples.antt =====
-- A root table with one table of interrupt controllers.
use low_flex_programming.Base.{
  drop, ◌^◌, ◌-◌, ◌≡◌, refl, ◌==◌, if◌then◌else◌, List, [], ◌∷◌, ok, arith,
}
use low_flex_programming.Common.{Memory}
use low_flex_programming.Apic.Calibrate.{
  Ports, Measurement, Timers, pit_prepare_sleep, count_written, calibrate_apic_timer,
  pit_prepare_sleep-count, calibrate_apic_timer-tenth,
}
use low_flex_programming.Apic.Setup.{MadtEntry}

-- The root table stands at 0 and has one entry, the table at 0x200. That has 64 bytes: the address of
-- the local controller, an empty local entry of 8 bytes and an I/O controller. The string stands
-- at 0x900.
abbrev firmware : Memory
firmware a =
    if a == 4
    then 40
    else if a == 37
    then 2
    else if a == 0x200
    then 65
    else if a == 0x900
    then 65
    else if a == 0x204
    then 64
    else if a == 0x226
    then 0xe0
    else if a == 0x227
    then 0xfe
    else if a == 0x22d
    then 8
    else if a == 0x234
    then 1
    else if a == 0x235
    then 12
    else if a == 0x23a
    then 0xc0
    else if a == 0x23b
    then 0xfe
    else 0

abbrev entries : List MadtEntry
entries =
    record { kind = 0; size = 8; address = 0 }
    ∷ record { kind = 1; size = 12; address = 0xfec00000 }
    ∷ []

-- Port 0x61 has the bit set for two reads; the local timer stands at 2 ^ 32 - 1 - 1234567 then.
abbrev measurement : Measurement
measurement = record {
  prepare_status = 0;
  perform_status = 0;
  statuses = 0x20 ∷ 0x30 ∷ 0 ∷ 7 ∷ [];
  registers = λ i. 2 ^ 32 - 1 - 1234567;
}

abbrev timers : Timers
timers = record { lapic = []; ports = [] }

-- Twice the time gives half the ticks.
pit_twice :
    (ports : Ports) × (pit_prepare_sleep 20000 0 [] ≡ ok ports) × (count_written ports ≡ 5965)
pit_twice = pit_prepare_sleep-count 20000 0 [] (omega arith)

calibrate_apic_timer-tenth_example :
    (t' : Timers) × (calibrate_apic_timer measurement timers ≡ ok t')
    × (t'.lapic
        ≡ (0xe0, 123456)
          ∷ (0xf8, 3)
          ∷ (0xc8, 0x20020)
          ∷ (0xc8, 0x10000)
          ∷ (0xe0, 2 ^ 32 - 1)
          ∷ (0xf8, 3)
          ∷ [])
    × (count_written (drop 2 t'.ports) ≡ 11931)
calibrate_apic_timer-tenth_example =
    calibrate_apic_timer-tenth measurement timers (0x20 ∷ 0x30 ∷ []) (7 ∷ []) 0
      (2 ^ 32 - 1 - 1234567) refl (refl, (refl, tt)) refl (omega arith) refl (omega arith)
