-- ===== src/Movement/Speed.antt =====
-- internal/modernworld/movement_speed.go and movement_collision.go: speeds and collision heights that the
-- 3.3.5 server sets, and the answers of the client. An error of a reader is `none`.
use redscarf_proxy.Prelude.{
  ℕ, ◌==◌, ◌&&◌, if◌then◌else◌, Bool, false, List, [], ◌∷◌, ◌++◌, Option, none, some,
}
use redscarf_proxy.Guid.{Guid128}
use redscarf_proxy.Wire.Bytes.{le_bytes}
use redscarf_proxy.Wire.Packed.{append_packed_guid128}
use redscarf_proxy.Wire.Reader.{Reader, pure, ◌>>=◌, u8, u32, f32, packed_guid, optional}
use redscarf_proxy.Wire.Reader.Written.{concat}
use redscarf_proxy.Update.Movement.{Movement}
use redscarf_proxy.Movement.{PlayerMovement, read_body, find_opcode}
use redscarf_proxy.Movement.Modern.{modern_movement_stats, encode_move_update}
use redscarf_proxy.Movement.Flags.{encode_legacy_ack}

pub data SpeedKind : Type 0 where
  force_kind spline_kind : SpeedKind

pub record LegacySpeedChange : Type 0 where
  pub kind : SpeedKind
  pub modern : ℕ
  pub guid : ℕ
  pub counter : ℕ
  pub speed : ℕ
  pub has_extra : Bool

unfoldable pub legacy_force_speed_opcodes : List (ℕ × ℕ)
legacy_force_speed_opcodes =
    (0x00E2, 11760)
    ∷ (0x00E4, 11761)
    ∷ (0x00E6, 11762)
    ∷ (0x02DA, 11766)
    ∷ (0x02DC, 11763)
    ∷ (0x02DE, 11767)
    ∷ (0x0381, 11764)
    ∷ (0x0383, 11765)
    ∷ []

unfoldable pub legacy_spline_speed_opcodes : List (ℕ × ℕ)
legacy_spline_speed_opcodes =
    (0x02FE, 11751)
    ∷ (0x02FF, 11752)
    ∷ (0x0300, 11753)
    ∷ (0x0302, 11754)
    ∷ (0x0301, 11757)
    ∷ (0x0303, 11758)
    ∷ (0x0385, 11755)
    ∷ (0x0386, 11756)
    ∷ (0x045E, 11759)
    ∷ []

unfoldable pub modern_speed_ack_to_legacy : List (ℕ × ℕ)
modern_speed_ack_to_legacy =
    (14859, 0x00E3)
    ∷ (14860, 0x00E5)
    ∷ (14861, 0x00E7)
    ∷ (14881, 0x02DB)
    ∷ (14882, 0x02DD)
    ∷ (14883, 0x02DF)
    ∷ (14893, 0x0382)
    ∷ (14894, 0x0384)
    ∷ (14898, 0x045D)
    ∷ []

unfoldable pub force_speed : ℕ → Bool → Reader LegacySpeedChange
force_speed modern extra_byte = do
  guid ← packed_guid
  counter ← u32
  extra ← optional extra_byte u8 0
  speed ← f32
  pure (record {
    kind = force_kind;
    modern = modern;
    guid = guid;
    counter = counter;
    speed = speed;
    has_extra = extra_byte;
  })

unfoldable pub spline_speed : ℕ → Reader LegacySpeedChange
spline_speed modern = do
  guid ← packed_guid
  speed ← f32
  pure (record {
    kind = spline_kind;
    modern = modern;
    guid = guid;
    counter = 0;
    speed = speed;
    has_extra = false;
  })

-- `none` is an opcode that is not handled; the result inside is the reader's.
unfoldable pub parse_legacy_speed_change : ℕ → List ℕ → Option (Option LegacySpeedChange)
parse_legacy_speed_change opcode body = elim (find_opcode opcode legacy_force_speed_opcodes) [
  | some modern ↦ some (read_body (force_speed modern (opcode == 0x00E2)) body)
  | none ↦ elim (find_opcode opcode legacy_spline_speed_opcodes) [
    | some modern ↦ some (read_body (spline_speed modern) body)
    | none ↦ none
  ]
]

abbrev counter_bytes : SpeedKind → ℕ → List ℕ
counter_bytes force_kind counter = le_bytes 4 counter
counter_bytes spline_kind counter = []

unfoldable pub encode_modern_speed_change : LegacySpeedChange → Guid128 → Option (List ℕ)
encode_modern_speed_change change guid =
    if guid.low == 0 && guid.high == 0
    then none
    else some (
        append_packed_guid128 [] guid
        ++ (counter_bytes change.kind change.counter ++ le_bytes 4 change.speed))

unfoldable pub legacy_opcode_for_modern_speed_ack : ℕ → Option ℕ
legacy_opcode_for_modern_speed_ack opcode = find_opcode opcode modern_speed_ack_to_legacy

pub record MovementSpeedAck : Type 0 where
  pub move : PlayerMovement
  pub counter : ℕ
  pub speed : ℕ

pub record CollisionHeightChange : Type 0 where
  pub guid : ℕ
  pub counter : ℕ
  pub height : ℕ

pub record CollisionHeightAck : Type 0 where
  pub move : PlayerMovement
  pub counter : ℕ
  pub height : ℕ

unfoldable pub parse_legacy_collision_height_change : List ℕ → Option CollisionHeightChange
parse_legacy_collision_height_change = read_body (do
  guid ← packed_guid
  counter ← u32
  height ← f32
  pure (record { guid = guid; counter = counter; height = height }))

-- The floating point number 1.
abbrev one_f32 : ℕ
one_f32 = 0x3f800000

unfoldable pub encode_modern_collision_height_change : CollisionHeightChange → Guid128 → List ℕ
encode_modern_collision_height_change change mover = concat (
    append_packed_guid128 [] mover
    ∷ le_bytes 4 change.counter
    ∷ le_bytes 4 change.height
    ∷ le_bytes 4 one_f32
    ∷ (2 ∷ [])
    ∷ le_bytes 4 0
    ∷ le_bytes 4 2000
    ∷ [])

module _ (clamp : ℕ → ℕ) where
  unfoldable pub parse_modern_speed_ack : List ℕ → Option MovementSpeedAck
  parse_modern_speed_ack = read_body (do
    move ← modern_movement_stats clamp
    counter ← u32
    speed ← f32
    pure (record { move = move; counter = counter; speed = speed }))

  unfoldable pub encode_legacy_force_speed_ack : ℕ → ℕ → MovementSpeedAck → Option (List ℕ)
  encode_legacy_force_speed_ack mover transport ack =
      encode_legacy_ack clamp mover transport ack.move ack.counter (le_bytes 4 ack.speed)

  unfoldable pub parse_modern_collision_height_ack : List ℕ → Option CollisionHeightAck
  parse_modern_collision_height_ack = read_body (do
    move ← modern_movement_stats clamp
    counter ← u32
    height ← f32
    mount_display ← u32
    reason ← u8
    pure (record { move = move; counter = counter; height = height }))

  unfoldable pub encode_legacy_collision_height_ack : ℕ → ℕ → CollisionHeightAck → Option (List ℕ)
  encode_legacy_collision_height_ack mover transport ack =
      encode_legacy_force_speed_ack mover transport
        (record { move = ack.move; counter = ack.counter; speed = ack.height })

  -- The collision height of the movement is the argument `height`.
  unfoldable pub encode_move_update_collision_height : Movement → ℕ → Guid128 → Guid128 → List ℕ
  encode_move_update_collision_height move height mover transport =
      encode_move_update clamp move mover transport ++ (le_bytes 4 height ++ le_bytes 4 one_f32)
