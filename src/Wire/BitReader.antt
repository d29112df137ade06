-- ===== src/Wire/BitReader.antt =====
-- The bits that `movementReader` of internal/modernworld/player_movement.go reads. A cursor is the
-- bytes that are left, the first of them partly read, and the number of its bits that are read.
pub mod Pack
pub mod RoundTrip
use redscarf_proxy.Prelude.{
  ℕ, zero, suc, ◌+◌, ◌-◌, ◌*◌, ◌%◌, ◌^◌, ◌==◌, bit_and, bit_or, not, if◌then◌else◌, Bool, true,
  false, List, [], ◌∷◌, Option, none, some, drop,
}

pub record Cursor : Type 0 where
  pub bytes : List ℕ
  pub bit_offset : ℕ

abbrev pub BitReader : Type 0 → Type 0
BitReader A = Cursor → Option (A × Cursor)

unfoldable pub align : Cursor → Cursor
align c = if c.bit_offset == 0 then c else record { bytes = drop 1 c.bytes; bit_offset = 0 }

unfoldable pub bit : BitReader Bool
bit c = elim c.bytes [
  | [] ↦ none
  | b ∷ bs ↦
      let value = not (bit_and b (2 ^ (7 - c.bit_offset)) == 0) in
      if c.bit_offset + 1 == 8
      then some (value, record { bytes = bs; bit_offset = 0 })
      else some (value, record { bytes = b ∷ bs; bit_offset = c.bit_offset + 1 })
]

-- The loop of `bits`, with the value so far.
unfoldable pub bits_loop : ℕ → ℕ → BitReader ℕ
bits_loop zero value c = some (value, c)
bits_loop (suc n) value c = elim (bit c) [
  | none ↦ none
  | some (b, next) ↦
      let shifted = value * 2 % 2 ^ 32 in bits_loop n (if b then bit_or shifted 1 else shifted) next
]

unfoldable pub bits : ℕ → BitReader ℕ
bits count c = bits_loop count 0 c
