-- ===== src/Common/Examples.antt =====
-- The byte routines of common.h on concrete regions.
use low_flex_programming.Base.{
  ℕ, ◌+◌, ◌≡◌, ltb, leb, ◌&&◌, if◌then◌else◌, arith, ok, List, [], ◌∷◌, ◌++◌, u8,
}
use low_flex_programming.Common.{Memory, memset, strlen}
use low_flex_programming.Common.Copy.{memset_lem, strlen-length}

-- Every place holds its own address.
abbrev ramp : Memory
ramp = λ a. a

memset_lem_example :
    memset ramp 10 0x120 4 12 ≡ (if leb 10 12 && ltb 12 (10 + 4) then u8 0x120 else ramp 12)
memset_lem_example = memset_lem ramp 10 0x120 4 12

abbrev hi : List ℕ
hi = b'h' ∷ b'i' ∷ []

strlen-length_example : strlen (hi ++ 0 ∷ 7 ∷ []) ≡ ok 2
strlen-length_example = strlen-length hi (7 ∷ []) (omega arith, (omega arith, tt))
