-- ===== src/Tests/MovementRuns.antt =====
-- Runs of the movement packets of internal/modernworld/player_movement.go.
use redscarf_proxy.Prelude.{ℕ, ◌%◌, ◌^◌, ◌<◌, ◌≡◌, refl, arith, List, none, some}
use redscarf_proxy.Guid.{Guid128, zero_guid}
use redscarf_proxy.Update.Movement.{Movement, new_movement}
use redscarf_proxy.Movement.{PlayerMovement, is_one_of}
use redscarf_proxy.Movement.Legacy.{
  encode_legacy_player_movement, parse_legacy_player_movement, speed_opcode,
}
use redscarf_proxy.Movement.Legacy.RoundTrip.{
  IsMovement, flags_on_wire, arriving, parse-encode_legacy_player_movement,
}
use redscarf_proxy.Movement.Modern.{parse_modern_player_movement, encode_move_update}
use redscarf_proxy.Movement.Modern.RoundTrip.{arriving_modern, parse-encode_move_update}

-- A clamp on bit patterns, which forgets everything over 32 bits.
abbrev cut : ℕ → ℕ
cut o = o % 2 ^ 32

cut-lt : (o : ℕ) → cut o < 2 ^ 32
cut-lt o = omega arith

-- Running forward and falling.
abbrev jumping : Movement
jumping = record (new_movement 0) {
  move_flags = 0x00001001;
  move_time = 1000;
  position = (1, 2, 3, 4);
  fall_time = 50;
  jump = (5, 6, 7, 8);
  vehicle_id = 3;
}

jumping-IsMovement : IsMovement jumping
unfolding new_movement
jumping-IsMovement = record {
  move_extra_fits = omega arith;
  move_time_fits = omega arith;
  position_fits = record {
    x_fits = omega arith;
    y_fits = omega arith;
    z_fits = omega arith;
    o_fits = omega arith;
  };
  transport_position_fits = record {
    x_fits = omega arith;
    y_fits = omega arith;
    z_fits = omega arith;
    o_fits = omega arith;
  };
  transport_time_fits = omega arith;
  transport_time2_fits = omega arith;
  pitch_fits = omega arith;
  fall_time_fits = omega arith;
  jump_fits = record {
    x_fits = omega arith;
    y_fits = omega arith;
    z_fits = omega arith;
    o_fits = omega arith;
  };
  spline_elevation_fits = omega arith;
}

abbrev runner : PlayerMovement
runner = record { mover = record { low = 7; high = 8 }; transport = zero_guid; move = jumping }

parse-encode_legacy_player_movement_example :
    (body : List ℕ) × (encode_legacy_player_movement cut runner 7 19 ≡ some body)
    × (parse_legacy_player_movement cut 0x00b5 body
        ≡ some (7, arriving cut (flags_on_wire runner.move.move_flags 19) 19 jumping, none))
unfolding speed_opcode is_one_of new_movement
parse-encode_legacy_player_movement_example =
    parse-encode_legacy_player_movement cut cut-lt 0x00b5 runner 7 19 refl refl
      (λ e. absurd (ground arith)) (omega arith) (omega arith) (omega arith) jumping-IsMovement

abbrev ship : Guid128
ship = record { low = 21; high = 22 }

parse-encode_move_update_example :
    parse_modern_player_movement cut (encode_move_update cut jumping runner.mover ship)
    ≡ some (arriving_modern cut jumping runner.mover ship)
unfolding new_movement
parse-encode_move_update_example =
    parse-encode_move_update cut cut-lt jumping runner.mover ship jumping-IsMovement
      (record { low_fits = omega arith; high_fits = omega arith })
      (record { low_fits = omega arith; high_fits = omega arith }) (omega arith) (omega arith)
