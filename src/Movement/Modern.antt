-- ===== src/Movement/Modern.antt =====
-- The 3.4.3 movement body: `modernMovementStats` of internal/modernworld/player_movement.go and
-- `appendModernMovementInfoDetails` of internal/modernworld/active_player.go. `clampOrientation` is a
-- parameter. The bits of a group that is followed by whole bytes are bits of one byte, from the top.
pub mod RoundTrip
use redscarf_proxy.Prelude.{
  ℕ, ◌-◌, ◌%◌, ◌^◌, ◌==◌, leb, bit_and, bit_or, ◌||◌, not, if◌then◌else◌, Bool, true, false, List,
  [], ◌∷◌, ◌++◌, Option, none, some,
}
use redscarf_proxy.Guid.{Guid128, zero_guid}
use redscarf_proxy.Wire.Bytes.{le_bytes}
use redscarf_proxy.Wire.BitWriter.{new_bit_writer, write_bit, flush}
use redscarf_proxy.Wire.Packed.{append_packed_guid128, read_packed_guid128}
use redscarf_proxy.Wire.Reader.{
  Reader, pure, ◌>>=◌, u8, u32, f32, optional, guard, replicate, floats3, floats4,
}
use redscarf_proxy.Wire.Reader.Written.{concat}
use redscarf_proxy.Update.Movement.{Movement, new_movement, has}
use redscarf_proxy.Movement.{PlayerMovement, modern_movement_flags, read_body}
use redscarf_proxy.Movement.Legacy.{floats4_bytes, clamp_position, encode_legacy_player_movement}

-- `bit` at this bit of the byte.
unfoldable pub bit_at : ℕ → ℕ → Bool
bit_at offset byte = not (bit_and byte (2 ^ (7 - offset)) == 0)

abbrev pub max_removed_movement_forces : ℕ
max_removed_movement_forces = 1024

unfoldable pub floats3_bytes : ℕ × ℕ × ℕ → List ℕ
floats3_bytes (x, y, z) = concat (le_bytes 4 x ∷ le_bytes 4 y ∷ le_bytes 4 z ∷ [])

unfoldable pub inertia_part : Reader Guid128
inertia_part = do guid ← read_packed_guid128; force ← floats3; lifetime ← u32; pure guid

unfoldable pub flying_part : Reader ℕ
flying_part = do forward ← f32; up ← f32; pure forward

unfoldable pub fall_part : PlayerMovement → Reader PlayerMovement
fall_part result = do
  fall_time ← u32
  velocity ← f32
  bits ← u8
  direction ← optional (bit_at 0 bits) floats3 (0, 0, 0)
  pure (record result {
    move = record result.move {
      fall_time = fall_time;
      jump = (velocity, direction.0, direction.1, direction.2);
    };
  })

unfoldable pub has_transport : Guid128 → Bool
has_transport transport = not (transport.low == 0) || not (transport.high == 0)

unfoldable pub has_fall_direction : Movement → Bool
has_fall_direction move = has move.move_flags (bit_or 0x00001000 0x00002000)

unfoldable pub has_fall : Movement → Bool
has_fall move = has_fall_direction move || not (move.fall_time == 0)

unfoldable pub status_bits : Bool → Bool → Bool → List ℕ
status_bits transport fall spline =
    (flush (
      write_bit false (
        write_bit false (
          write_bit false (
            write_bit false (
              write_bit spline (
                write_bit fall
                  (write_bit transport (write_bit false (new_bit_writer [])))))))))).bytes

unfoldable pub transport_bits : Bool → List ℕ
transport_bits vehicle = (flush (write_bit vehicle (write_bit false (new_bit_writer [])))).bytes

unfoldable pub fall_bits : Bool → List ℕ
fall_bits direction = (flush (write_bit direction (new_bit_writer []))).bytes

unfoldable pub transport_piece : Movement → Guid128 → List ℕ
transport_piece move transport = concat (
    append_packed_guid128 [] transport
    ∷ floats4_bytes move.transport_position
    ∷ (move.transport_seat ∷ [])
    ∷ le_bytes 4 move.transport_time
    ∷ transport_bits (not (move.vehicle_id == 0))
    ∷ (if not (move.vehicle_id == 0) then le_bytes 4 move.vehicle_id else [])
    ∷ [])

unfoldable pub fall_piece : Movement → List ℕ
fall_piece move =
    let (velocity, sin, cos, speed) = move.jump in
    concat (
      le_bytes 4 move.fall_time
      ∷ le_bytes 4 velocity
      ∷ fall_bits (has_fall_direction move)
      ∷ (if has_fall_direction move then floats3_bytes (sin, cos, speed) else [])
      ∷ [])

module _ (clamp : ℕ → ℕ) where
  unfoldable pub transport_part : PlayerMovement → Reader PlayerMovement
  transport_part result = do
    guid ← read_packed_guid128
    position ← floats4
    seat ← u8
    time ← u32
    bits ← u8
    time2 ← optional (bit_at 0 bits) u32 0
    vehicle_id ← optional (bit_at 1 bits) u32 0
    pure (record result {
      transport = guid;
      move = record result.move {
        transport_position = clamp_position clamp position;
        transport_seat = seat;
        transport_time = time;
        transport_time2 = time2;
        vehicle_id = vehicle_id;
      };
    })

  -- The blocks after the status bits, in the order of the body.
  unfoldable pub stats_parts :
      Bool → Bool → Bool → Bool → Bool → PlayerMovement → Reader PlayerMovement
  stats_parts standing transport fall inertia flying result = do
    carried ← optional transport (transport_part result) result
    stood ← optional standing read_packed_guid128 zero_guid
    pushed ← optional inertia inertia_part zero_guid
    flown ← optional flying flying_part 0
    optional fall (fall_part carried) carried

  unfoldable pub stats_removed : ℕ → PlayerMovement → Reader PlayerMovement
  stats_removed count result = do
    index ← u32
    removed ← replicate count read_packed_guid128
    bits ← u8
    stats_parts (bit_at 0 bits) (bit_at 1 bits) (bit_at 2 bits) (bit_at 6 bits) (bit_at 7 bits)
        result

  unfoldable pub modern_movement_stats : Reader PlayerMovement
  modern_movement_stats = do
    mover ← read_packed_guid128
    flags ← u32
    extra ← u32
    extra2 ← u32
    time ← u32
    position ← floats4
    pitch ← f32
    elevation ← f32
    count ← u32
    guard (leb count max_removed_movement_forces) (
        stats_removed count (record {
          mover = mover;
          transport = zero_guid;
          move = record (new_movement 0) {
            move_flags = flags;
            move_extra = extra % 2 ^ 16;
            move_time = time;
            position = clamp_position clamp position;
            pitch = pitch;
            spline_elevation = elevation;
          };
        }))

  unfoldable pub parse_modern_player_movement : List ℕ → Option PlayerMovement
  parse_modern_player_movement = read_body modern_movement_stats

  unfoldable pub parse_move_spline_done : List ℕ → Option (PlayerMovement × ℕ)
  parse_move_spline_done =
      read_body (do movement ← modern_movement_stats; spline_id ← u32; pure (movement, spline_id))

  unfoldable pub encode_legacy_move_spline_done : PlayerMovement → ℕ → ℕ → ℕ → Option (List ℕ)
  encode_legacy_move_spline_done movement mover_guid transport_guid spline_id =
      elim (encode_legacy_player_movement clamp movement mover_guid transport_guid) [
        | none ↦ none
        | some body ↦ some (body ++ le_bytes 4 spline_id)
      ]

  unfoldable pub append_modern_movement_info_details : Guid128 → Movement → Guid128 → Bool → List ℕ
  append_modern_movement_info_details object move transport has_spline_data = concat (
      append_packed_guid128 [] object
      ∷ le_bytes 4 (modern_movement_flags move.move_flags)
      ∷ le_bytes 4 0x200
      ∷ le_bytes 4 0
      ∷ le_bytes 4 move.move_time
      ∷ floats4_bytes (clamp_position clamp move.position)
      ∷ le_bytes 4 (clamp move.pitch)
      ∷ le_bytes 4 move.spline_elevation
      ∷ le_bytes 4 0
      ∷ le_bytes 4 0
      ∷ status_bits (has_transport transport) (has_fall move) has_spline_data
      ∷ (if has_transport transport then transport_piece move transport else [])
      ∷ (if has_fall move then fall_piece move else [])
      ∷ [])

  unfoldable pub encode_move_update : Movement → Guid128 → Guid128 → List ℕ
  encode_move_update move mover transport =
      append_modern_movement_info_details mover move transport false
