-- ===== src/Movement/Flags.antt =====
-- internal/modernworld/movement_flags.go: the flags that the 3.3.5 server forces on a mover, and the
-- answers of the client. An error of a reader is `none`.
pub mod RoundTrip
use redscarf_proxy.Prelude.{
  ℕ, ◌==◌, ◌&&◌, if◌then◌else◌, Bool, true, false, List, [], ◌∷◌, ◌++◌, Option, none, some,
}
use redscarf_proxy.Guid.{Guid128}
use redscarf_proxy.Wire.Bytes.{le_bytes}
use redscarf_proxy.Wire.BitWriter.{new_bit_writer, write_bit, flush}
use redscarf_proxy.Wire.Packed.{append_legacy_packed_guid, append_packed_guid128, read_packed_guid}
use redscarf_proxy.Wire.Reader.{Reader, pure, ◌>>=◌, u8, u32, f32, packed_guid, optional}
use redscarf_proxy.Update.Movement.{has}
use redscarf_proxy.Movement.{
  PlayerMovement, read_body, find_opcode, is_one_of, modern_movement_flags_to_legacy,
}
use redscarf_proxy.Movement.Legacy.{encode_legacy_player_movement}
use redscarf_proxy.Movement.Modern.{modern_movement_stats, bit_at}

unfoldable pub legacy_movement_flag_opcodes : List (ℕ × ℕ)
legacy_movement_flag_opcodes =
    (0x00DE, 0x2DFB)
    ∷ (0x00DF, 0x2DFE)
    ∷ (0x00E8, 0x2DF9)
    ∷ (0x00EA, 0x2DFA)
    ∷ (0x00F2, 0x2DFF)
    ∷ (0x00F3, 0x2E00)
    ∷ (0x00F4, 0x2E01)
    ∷ (0x00F5, 0x2E02)
    ∷ (0x0343, 0x2E05)
    ∷ (0x0344, 0x2E06)
    ∷ (0x04CE, 0x2E0D)
    ∷ (0x04D0, 0x2E0E)
    ∷ (0x030B, 0x2E25)
    ∷ (0x030C, 0x2E26)
    ∷ (0x030D, 0x2E27)
    ∷ (0x030E, 0x2E28)
    ∷ (0x031A, 0x2E19)
    ∷ (0x0304, 0x2E1A)
    ∷ (0x04D3, 0x2E1B)
    ∷ (0x04D4, 0x2E1C)
    ∷ (0x0305, 0x2E1F)
    ∷ (0x0306, 0x2E20)
    ∷ (0x0307, 0x2E21)
    ∷ (0x0308, 0x2E22)
    ∷ (0x0309, 0x2E23)
    ∷ (0x030A, 0x2E24)
    ∷ (0x0422, 0x2E29)
    ∷ (0x0423, 0x2E2A)
    ∷ []

unfoldable pub legacy_spline_movement_flag_opcodes : List ℕ
legacy_spline_movement_flag_opcodes =
    0x030B ∷ 0x030C ∷ 0x030D ∷ 0x030E ∷ 0x031A ∷ 0x0304 ∷ 0x04D3 ∷ 0x04D4 ∷ 0x0305 ∷ 0x0306 ∷ 0x0307
    ∷ 0x0308 ∷ 0x0309 ∷ 0x030A ∷ 0x0422 ∷ 0x0423 ∷ []

unfoldable pub modern_movement_flag_ack_to_legacy : List (ℕ × ℕ)
modern_movement_flag_ack_to_legacy =
    (14866, 0xF0)
    ∷ (0x3A0E, 0x00E9)
    ∷ (0x3A0F, 0x00EB)
    ∷ (0x3A1C, 0x02CF)
    ∷ (0x3A1D, 0x02D0)
    ∷ (0x3A13, 0x00F6)
    ∷ (0x3A27, 0x0345)
    ∷ (0x3A35, 0x04CF)
    ∷ (0x3A36, 0x04D1)
    ∷ []

pub record MovementFlagChange : Type 0 where
  pub modern : ℕ
  pub guid : ℕ
  pub counter : ℕ
  pub has_counter : Bool

unfoldable pub spline_flag_change : ℕ → Reader MovementFlagChange
spline_flag_change modern = do
  guid ← packed_guid
  pure (record { modern = modern; guid = guid; counter = 0; has_counter = false })

unfoldable pub counted_flag_change : ℕ → Reader MovementFlagChange
counted_flag_change modern = do
  guid ← packed_guid
  counter ← u32
  pure (record { modern = modern; guid = guid; counter = counter; has_counter = true })

-- `none` is an opcode that is not handled; the result inside is the reader's.
unfoldable pub parse_legacy_movement_flag_change : ℕ → List ℕ → Option (Option MovementFlagChange)
parse_legacy_movement_flag_change opcode body =
    elim (find_opcode opcode legacy_movement_flag_opcodes) [
      | none ↦ none
      | some modern ↦ some (
          if is_one_of opcode legacy_spline_movement_flag_opcodes
          then read_body (spline_flag_change modern) body
          else read_body (counted_flag_change modern) body)
    ]

unfoldable pub encode_modern_movement_flag_change : MovementFlagChange → Guid128 → Option (List ℕ)
encode_modern_movement_flag_change change guid =
    if guid.low == 0 && guid.high == 0
    then none
    else some (
        append_packed_guid128 [] guid
        ++ (if change.has_counter then le_bytes 4 change.counter else []))

unfoldable pub encode_set_play_hover_anim : Guid128 → Bool → List ℕ
encode_set_play_hover_anim guid play =
    (flush (write_bit play (new_bit_writer (append_packed_guid128 [] guid)))).bytes

unfoldable pub play_hover_anim_for_spline_opcode : ℕ → Option Bool
play_hover_anim_for_spline_opcode opcode =
    if opcode == 0x0307 then some true else if opcode == 0x0308 then some false else none

unfoldable pub legacy_opcode_for_modern_movement_flag_ack : ℕ → Option ℕ
legacy_opcode_for_modern_movement_flag_ack opcode =
    find_opcode opcode modern_movement_flag_ack_to_legacy

pub record MovementFlagAck : Type 0 where
  pub move : PlayerMovement
  pub counter : ℕ

-- The speeds of a knock-back: the horizontal one, then the vertical one.
unfoldable pub knock_back_speeds : PlayerMovement → Reader PlayerMovement
knock_back_speeds movement = do
  horizontal ← f32
  vertical ← f32
  let (velocity, sin, cos, speed) = movement.move.jump
  pure (record movement { move = record movement.move { jump = (vertical, sin, cos, horizontal) } })

unfoldable pub knock_back_part : PlayerMovement → Reader PlayerMovement
knock_back_part movement = do
  bits ← u8
  optional (bit_at 0 bits) (knock_back_speeds movement) movement

module _ (clamp : ℕ → ℕ) where
  unfoldable pub movement_flag_ack : Bool → Reader MovementFlagAck
  movement_flag_ack knockback = do
    movement ← modern_movement_stats clamp
    counter ← u32
    move ← optional knockback (knock_back_part movement) movement
    pure (record { move = move; counter = counter })

  unfoldable pub parse_modern_movement_flag_ack : List ℕ → Option MovementFlagAck
  parse_modern_movement_flag_ack = read_body (movement_flag_ack false)

  unfoldable pub parse_modern_knock_back_ack : List ℕ → Option MovementFlagAck
  parse_modern_knock_back_ack = read_body (movement_flag_ack true)

-- The flag of an acknowledgement that ends with whether it was applied.
unfoldable pub applied_flag : ℕ → Option ℕ
applied_flag opcode =
    if opcode == 0x02D0
    then some 0x10000000
    else if opcode == 0x00F6
    then some 0x40000000
    else if opcode == 0x0345
    then some 0x01000000
    else if opcode == 0x02CF
    then some 0x20000000
    else none

unfoldable pub applied_bytes : ℕ → PlayerMovement → List ℕ
applied_bytes opcode movement = elim (applied_flag opcode) [
  | none ↦ []
  | some flag ↦
      le_bytes 4
        (if has (modern_movement_flags_to_legacy movement.move.move_flags) flag then 1 else 0)
]

module _ (clamp : ℕ → ℕ) where
  -- The mover, a counter, the movement without its mover, and the end.
  unfoldable pub encode_legacy_ack : ℕ → ℕ → PlayerMovement → ℕ → List ℕ → Option (List ℕ)
  encode_legacy_ack mover transport movement counter end =
      elim (encode_legacy_player_movement clamp movement mover transport) [
        | none ↦ none
        | some body ↦ elim (read_packed_guid body) [
          | none ↦ none
          | some (guid, info) ↦
              some (append_legacy_packed_guid [] mover ++ (le_bytes 4 counter ++ (info ++ end)))
        ]
      ]

  unfoldable pub encode_legacy_movement_flag_ack : ℕ → ℕ → ℕ → MovementFlagAck → Option (List ℕ)
  encode_legacy_movement_flag_ack opcode mover transport ack =
      encode_legacy_ack mover transport ack.move ack.counter (applied_bytes opcode ack.move)
