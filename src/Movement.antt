-- ===== src/Movement.antt =====
-- internal/modernworld/player_movement.go: the movement packets of players, on both wires. Floating
-- point numbers are bit patterns, and `clampOrientation` of monster_move.go, which adds and subtracts
-- floating point numbers, is a parameter.
pub mod Legacy
pub mod Modern
pub mod Flags
pub mod Speed
pub mod KnockBack
pub mod Teleport
pub mod Taxi
use redscarf_proxy.Prelude.{
  ℕ, ◌*◌, ◌/◌, ◌%◌, ◌^◌, ◌==◌, bit_and, bit_or, ltb, not, ◌&&◌, ◌||◌, if◌then◌else◌, Bool, true,
  false, List, [], ◌∷◌, ◌++◌, Option, none, some,
}
use redscarf_proxy.Guid.{Guid128}
use redscarf_proxy.Wire.Packed.{
  append_legacy_packed_guid, append_packed_guid128, read_packed_guid128,
}
use redscarf_proxy.Wire.Bytes.{le_bytes}
use redscarf_proxy.Wire.BitWriter.{new_bit_writer, write_bit, flush}
use redscarf_proxy.Wire.Reader.{Reader, pure, ◌>>=◌, u8, u32, packed_guid, guard}
use redscarf_proxy.Update.Movement.{Movement}

pub record PlayerMovement : Type 0 where
  pub mover : Guid128
  pub transport : Guid128
  pub move : Movement

-- A reader that has to read the whole body.
unfoldable pub read_body {ℓ} : {A : Type ℓ} → Reader A → List ℕ → Option A
read_body p body = elim (p body) [ none ↦ none | some (a, []) ↦ some a | some (a, b ∷ bs) ↦ none ]

unfoldable pub modern_movement_flags_to_legacy : ℕ → ℕ
modern_movement_flags_to_legacy modern =
    bit_or (bit_or (bit_and modern 0x000001ff) (bit_and modern 0x03fffe00 * 2 % 2 ^ 32))
      (bit_and modern 0x1c000000 * 4 % 2 ^ 32)

unfoldable pub modern_movement_flags : ℕ → ℕ
modern_movement_flags legacy =
    bit_or (bit_or (bit_and legacy 0x000001ff) (bit_and legacy 0x07fffc00 / 2))
      (bit_and legacy 0x70000000 / 4)

unfoldable pub find_opcode : ℕ → List (ℕ × ℕ) → Option ℕ
find_opcode opcode [] = none
find_opcode opcode ((key, value) ∷ entries) =
    let rest = find_opcode opcode entries in if key == opcode then some value else rest

unfoldable pub modern_to_legacy_player_move_opcode : List (ℕ × ℕ)
modern_to_legacy_player_move_opcode =
    (0x3A33, 0x046d)
    ∷ (14895, 0x00da)
    ∷ (14843, 0x00c9)
    ∷ (14873, 0x00da)
    ∷ (14864, 0x00ee)
    ∷ (14826, 0x00bb)
    ∷ (14871, 0x00da)
    ∷ (14857, 0x00da)
    ∷ (14943, 0x00da)
    ∷ (14888, 0x00da)
    ∷ (14858, 0x00db)
    ∷ (14834, 0x00c2)
    ∷ (14835, 0x00c3)
    ∷ (14889, 0x0359)
    ∷ (14821, 0x00b6)
    ∷ (14896, 0x03a7)
    ∷ (14820, 0x00b5)
    ∷ (14832, 0x00c0)
    ∷ (14831, 0x00bf)
    ∷ (14844, 0x00ca)
    ∷ (14828, 0x00bc)
    ∷ (14829, 0x00bd)
    ∷ (14823, 0x00b8)
    ∷ (14824, 0x00b9)
    ∷ (14822, 0x00b7)
    ∷ (14890, 0x035a)
    ∷ (14833, 0x00c1)
    ∷ (14825, 0x00ba)
    ∷ (14845, 0x00cb)
    ∷ (14830, 0x00be)
    ∷ (14827, 0x00da)
    ∷ []

unfoldable pub legacy_opcode_for_modern_movement : ℕ → Option ℕ
legacy_opcode_for_modern_movement opcode = find_opcode opcode modern_to_legacy_player_move_opcode

unfoldable pub is_one_of : ℕ → List ℕ → Bool
is_one_of opcode [] = false
is_one_of opcode (o ∷ os) = let rest = is_one_of opcode os in if o == opcode then true else rest

unfoldable pub is_legacy_player_movement_opcode : ℕ → Bool
is_legacy_player_movement_opcode opcode = is_one_of opcode (
    0x00b5 ∷ 0x00b6 ∷ 0x00b7 ∷ 0x00b8 ∷ 0x00b9 ∷ 0x00ba ∷ 0x00bb ∷ 0x00bc ∷ 0x00bd ∷ 0x00be ∷ 0x00bf
    ∷ 0x00c0 ∷ 0x00c1 ∷ 0x00c2 ∷ 0x00c3 ∷ 0x00c5 ∷ 0x00c9 ∷ 0x00ca ∷ 0x00cb ∷ 0x00cd ∷ 0x00cf
    ∷ 0x00d1 ∷ 0x00d3 ∷ 0x00d5 ∷ 0x00d8 ∷ 0x00da ∷ 0x00db ∷ 0x00ee ∷ 0x0359 ∷ 0x035a ∷ 0x037e
    ∷ 0x0380 ∷ 0x03a7 ∷ 0x03ad ∷ 0x045b ∷ 0x00ec ∷ 0x00ed ∷ 0x0518 ∷ 0x00f7 ∷ [])

unfoldable pub parse_move_time_skipped : List ℕ → Option (Guid128 × ℕ)
parse_move_time_skipped =
    read_body (do mover ← read_packed_guid128; skipped ← u32; pure (mover, skipped))

unfoldable pub encode_legacy_move_time_skipped : ℕ → ℕ → List ℕ
encode_legacy_move_time_skipped guid skipped =
    append_legacy_packed_guid [] guid ++ le_bytes 4 skipped

unfoldable pub parse_legacy_control_update : List ℕ → Option (ℕ × Bool)
parse_legacy_control_update = read_body (do
  guid ← packed_guid
  control ← u8
  guard (not (ltb 1 control)) (pure (guid, not (control == 0))))

unfoldable pub encode_control_update : Guid128 → Bool → List ℕ
encode_control_update guid has_control =
    (flush (write_bit has_control (new_bit_writer (append_packed_guid128 [] guid)))).bytes

unfoldable pub encode_move_set_active_mover : Guid128 → List ℕ
encode_move_set_active_mover guid = append_packed_guid128 [] guid

unfoldable pub parse_set_active_mover : List ℕ → Option Guid128
parse_set_active_mover = read_body read_packed_guid128
