-- ===== src/Update/Living.antt =====
-- `livingMovement` and `movement` of internal/modernworld/update_object.go, block by block. Each block
-- changes the movement that it is given.
use redscarf_proxy.Prelude.{ℕ, ◌||◌, bit_or, if◌then◌else◌, some}
use redscarf_proxy.Wire.Reader.{
  Reader, pure, ◌>>=◌, u8, u16, u32, u64, f32, packed_guid, optional, replicate, floats3, floats4,
}
use redscarf_proxy.Update.Movement.{
  has, Movement, new_movement, update_transport, update_attacking_target, update_low_guid,
  update_high_guid, update_living, update_stationary, update_vehicle, update_go_position,
  update_go_rotation, move_on_transport, move_falling, move_swimming, move_flying,
  move_spline_elevation, move_spline_enabled, move_always_allow_pitching, move_interpolate,
}
use redscarf_proxy.Update.Spline.{movement_spline}

unfoldable pub transport_block : ℕ → Movement → Reader Movement
transport_block extra move = do
  guid ← packed_guid
  position ← floats4
  time ← u32
  seat ← u8
  time2 ← optional (has extra move_interpolate) u32 move.transport_time2
  pure (record move {
    transport_guid = guid;
    transport_position = position;
    transport_time = time;
    transport_seat = seat;
    transport_time2 = time2;
  })

unfoldable pub jump_block : Movement → Reader Movement
jump_block move = do jump ← floats4; pure (record move { jump = jump })

unfoldable pub spline_block : Movement → Reader Movement
spline_block move = do spline ← movement_spline; pure (record move { spline = some spline })

unfoldable pub living_movement : Movement → Reader Movement
living_movement move = do
  flags ← u32
  extra ← u16
  time ← u32
  position ← floats4
  let placed = record move {
    move_flags = flags;
    move_extra = extra;
    move_time = time;
    position = position;
  }
  carried ← optional (has flags move_on_transport) (transport_block extra placed) placed
  pitch ←
      optional
        (has flags (bit_or move_swimming move_flying) || has extra move_always_allow_pitching) f32
        move.pitch
  fall_time ← u32
  jumped ← optional (has flags move_falling) (jump_block carried) carried
  elevation ← optional (has flags move_spline_elevation) f32 move.spline_elevation
  speeds ← replicate 9 f32
  let moved = record jumped {
    pitch = pitch;
    fall_time = fall_time;
    spline_elevation = elevation;
    speeds = speeds;
  }
  optional (has flags move_spline_enabled) (spline_block moved) moved

unfoldable pub go_position_block : Movement → Reader Movement
go_position_block move = do
  guid ← packed_guid
  point ← floats3
  transport ← floats3
  orientation ← f32
  corpse ← f32
  pure (record move {
    transport_guid = guid;
    position = (point.0, point.1, point.2, orientation);
    transport_position = (transport.0, transport.1, transport.2, orientation);
    corpse_orientation = corpse;
  })

unfoldable pub stationary_block : Movement → Reader Movement
stationary_block move = do position ← floats4; pure (record move { position = position })

-- The three ways to say where an object is.
unfoldable pub position_block : ℕ → Movement → Reader Movement
position_block flags move =
    if has flags update_living
    then living_movement move
    else (if has flags update_go_position
        then go_position_block move
        else (if has flags update_stationary then stationary_block move else pure move))

unfoldable pub movement : Reader Movement
movement = do
  flags ← u16
  placed ← position_block flags (new_movement flags)
  low ← optional (has flags update_low_guid) u32 0
  high ← optional (has flags update_high_guid) u32 0
  target ← optional (has flags update_attacking_target) packed_guid 0
  path_time ← optional (has flags update_transport) u32 0
  vehicle ← optional (has flags update_vehicle) u32 0
  vehicle_orientation ← optional (has flags update_vehicle) f32 0
  rotation ← optional (has flags update_go_rotation) u64 0
  pure (record placed {
    attack_target = target;
    transport_path_time = path_time;
    vehicle_id = vehicle;
    vehicle_orientation = vehicle_orientation;
    packed_rotation = rotation;
  })
