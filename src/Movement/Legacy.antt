-- ===== src/Movement/Legacy.antt =====
-- The 3.3.5 movement body of internal/modernworld/player_movement.go. `clampOrientation` is a parameter.
pub mod RoundTrip
use redscarf_proxy.Prelude.{
  ℕ, ◌/◌, ◌%◌, ◌^◌, ◌==◌, ltb, bit_or, ◌||◌, not, if◌then◌else◌, Bool, true, false, List, [], ◌∷◌,
  ◌++◌, Option, none, some,
}
use redscarf_proxy.Wire.Bytes.{le_bytes}
use redscarf_proxy.Wire.Packed.{append_legacy_packed_guid}
use redscarf_proxy.Wire.Reader.{
  Reader, pure, ◌>>=◌, u8, u16, u32, f32, packed_guid, optional, guard, floats4,
}
use redscarf_proxy.Wire.Reader.Written.{concat}
use redscarf_proxy.Update.Movement.{
  Movement, new_movement, has, move_on_transport, move_falling, move_swimming, move_flying,
  move_spline_elevation, move_always_allow_pitching, move_interpolate,
}
use redscarf_proxy.Movement.{PlayerMovement, modern_movement_flags_to_legacy, read_body, is_one_of}

-- The order of four numbers on the wire.
unfoldable pub floats4_bytes : ℕ × ℕ × ℕ × ℕ → List ℕ
floats4_bytes (x, y, z, o) = concat (le_bytes 4 x ∷ le_bytes 4 y ∷ le_bytes 4 z ∷ le_bytes 4 o ∷ [])

unfoldable pub has_pitch : ℕ → ℕ → Bool
has_pitch flags extra =
    has flags (bit_or move_swimming move_flying) || has extra move_always_allow_pitching

unfoldable pub legacy_flags : PlayerMovement → ℕ → ℕ
legacy_flags movement transport_guid =
    let flags = modern_movement_flags_to_legacy movement.move.move_flags in
    if transport_guid == 0 then flags else bit_or flags move_on_transport

-- The collision height of opcode 0x0518 is refused if it is not a number, infinite or negative; the
-- sign of a zero is not looked at.
unfoldable pub bad_height : ℕ → Bool
bad_height height = height / 2 ^ 23 % 256 == 255 || ltb (2 ^ 31) height

unfoldable pub speed_opcode : ℕ → Bool
speed_opcode opcode =
    is_one_of opcode
      (0x00cd ∷ 0x00cf ∷ 0x00d1 ∷ 0x00d3 ∷ 0x00d5 ∷ 0x00d8 ∷ 0x037e ∷ 0x0380 ∷ 0x045b ∷ [])

-- The number that ends the body of some opcodes: a collision height, or the speed that the opcode names.
unfoldable pub own_number : ℕ → Reader (Option ℕ)
own_number opcode =
    if opcode == 0x0518
    then (do height ← f32; guard (not (bad_height height)) (pure (some height)))
    else if speed_opcode opcode
    then (do speed ← f32; pure (some speed))
    else pure none

module _ (clamp : ℕ → ℕ) where
  unfoldable pub clamp_position : ℕ × ℕ × ℕ × ℕ → ℕ × ℕ × ℕ × ℕ
  clamp_position (x, y, z, o) = (x, y, z, clamp o)

  unfoldable pub transport_info : ℕ → Movement → Reader Movement
  transport_info extra move = do
    guid ← packed_guid
    position ← floats4
    time ← u32
    seat ← u8
    time2 ← optional (has extra move_interpolate) u32 move.transport_time2
    pure (record move {
      transport_guid = guid;
      transport_position = clamp_position position;
      transport_time = time;
      transport_seat = seat;
      transport_time2 = time2;
    })

  unfoldable pub movement_info : Reader Movement
  movement_info = do
    flags ← u32
    extra ← u16
    time ← u32
    position ← floats4
    let placed = record (new_movement 0) {
      move_flags = flags;
      move_extra = extra;
      move_time = time;
      position = clamp_position position;
    }
    carried ← optional (has flags move_on_transport) (transport_info extra placed) placed
    pitch ← optional (has_pitch flags extra) f32 placed.pitch
    fall_time ← u32
    jump ← optional (has flags move_falling) floats4 placed.jump
    elevation ← optional (has flags move_spline_elevation) f32 placed.spline_elevation
    pure (record carried {
      pitch = pitch;
      fall_time = fall_time;
      jump = jump;
      spline_elevation = elevation;
    })

  unfoldable pub transport_bytes : ℕ → Movement → List ℕ
  transport_bytes transport_guid move = concat (
      append_legacy_packed_guid [] transport_guid
      ∷ floats4_bytes (clamp_position move.transport_position)
      ∷ le_bytes 4 move.transport_time
      ∷ (move.transport_seat ∷ [])
      ∷ (if has move.move_extra move_interpolate then le_bytes 4 move.transport_time2 else [])
      ∷ [])

  -- The body after the mover, with the flags that it is sent with.
  unfoldable pub movement_bytes : ℕ → ℕ → Movement → List ℕ
  movement_bytes flags transport_guid move = concat (
      le_bytes 4 flags
      ∷ le_bytes 2 move.move_extra
      ∷ le_bytes 4 move.move_time
      ∷ floats4_bytes (clamp_position move.position)
      ∷ (if has flags move_on_transport then transport_bytes transport_guid move else [])
      ∷ (if has_pitch flags move.move_extra then le_bytes 4 move.pitch else [])
      ∷ le_bytes 4 move.fall_time
      ∷ (if has flags move_falling then floats4_bytes move.jump else [])
      ∷ (if has flags move_spline_elevation then le_bytes 4 move.spline_elevation else [])
      ∷ [])

  -- An empty mover is an error.
  unfoldable pub encode_legacy_player_movement : PlayerMovement → ℕ → ℕ → Option (List ℕ)
  encode_legacy_player_movement movement mover_guid transport_guid =
      if mover_guid == 0
      then none
      else some (
          append_legacy_packed_guid [] mover_guid
          ++ movement_bytes (legacy_flags movement transport_guid) transport_guid movement.move)

  unfoldable pub legacy_player_movement : ℕ → Reader (ℕ × Movement × Option ℕ)
  legacy_player_movement opcode = do
    mover ← packed_guid
    move ← movement_info
    number ← own_number opcode
    pure (mover, move, number)

  unfoldable pub parse_legacy_player_movement : ℕ → List ℕ → Option (ℕ × Movement × Option ℕ)
  parse_legacy_player_movement opcode = read_body (legacy_player_movement opcode)
