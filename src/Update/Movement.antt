-- ===== src/Update/Movement.antt =====
-- `LegacyMovement` and `LegacyMovementSpline` of internal/modernworld/update_object.go, and the flags
-- that say which blocks of a movement are present.
use redscarf_proxy.Prelude.{ℕ, ◌==◌, Bool, not, List, [], Option, none, bit_and}

-- `value&flag != 0`
unfoldable pub has : ℕ → ℕ → Bool
has value flag = not (bit_and value flag == 0)

abbrev pub update_transport : ℕ
update_transport = 0x002

abbrev pub update_attacking_target : ℕ
update_attacking_target = 0x004

abbrev pub update_low_guid : ℕ
update_low_guid = 0x008

abbrev pub update_high_guid : ℕ
update_high_guid = 0x010

abbrev pub update_living : ℕ
update_living = 0x020

abbrev pub update_stationary : ℕ
update_stationary = 0x040

abbrev pub update_vehicle : ℕ
update_vehicle = 0x080

abbrev pub update_go_position : ℕ
update_go_position = 0x100

abbrev pub update_go_rotation : ℕ
update_go_rotation = 0x200

abbrev pub move_on_transport : ℕ
move_on_transport = 0x00000200

abbrev pub move_falling : ℕ
move_falling = 0x00001000

abbrev pub move_swimming : ℕ
move_swimming = 0x00200000

abbrev pub move_flying : ℕ
move_flying = 0x02000000

abbrev pub move_spline_elevation : ℕ
move_spline_elevation = 0x04000000

abbrev pub move_spline_enabled : ℕ
move_spline_enabled = 0x08000000

abbrev pub move_always_allow_pitching : ℕ
move_always_allow_pitching = 0x0020

abbrev pub move_interpolate : ℕ
move_interpolate = 0x0400

abbrev pub spline_final_point : ℕ
spline_final_point = 0x00008000

abbrev pub spline_final_target : ℕ
spline_final_target = 0x00010000

abbrev pub spline_final_orientation : ℕ
spline_final_orientation = 0x00020000

abbrev pub Point : Type 0
Point = ℕ × ℕ × ℕ

pub record Spline : Type 0 where
  pub flags : ℕ
  pub facing_target : ℕ
  pub facing_angle : ℕ
  pub facing : Point
  pub time : ℕ
  pub full_time : ℕ
  pub id : ℕ
  pub duration_modifier : ℕ
  pub next_modifier : ℕ
  pub vertical_accel : ℕ
  pub start_time : ℕ
  pub points : List Point
  pub mode : ℕ
  pub end : Point

-- A position is `X`, `Y`, `Z` and `Orientation`; `jump` is `JumpVelocity`, `JumpSinAngle`,
-- `JumpCosAngle` and `JumpXYSpeed`; the speeds are kept in the order of the packet.
pub record Movement : Type 0 where
  pub update_flags : ℕ
  pub move_flags : ℕ
  pub move_extra : ℕ
  pub move_time : ℕ
  pub position : ℕ × ℕ × ℕ × ℕ
  pub transport_guid : ℕ
  pub transport_position : ℕ × ℕ × ℕ × ℕ
  pub transport_time : ℕ
  pub transport_time2 : ℕ
  pub transport_seat : ℕ
  pub pitch : ℕ
  pub fall_time : ℕ
  pub jump : ℕ × ℕ × ℕ × ℕ
  pub spline_elevation : ℕ
  pub speeds : List ℕ
  pub corpse_orientation : ℕ
  pub attack_target : ℕ
  pub transport_path_time : ℕ
  pub vehicle_id : ℕ
  pub vehicle_orientation : ℕ
  pub packed_rotation : ℕ
  pub spline : Option Spline

-- `&LegacyMovement{UpdateFlags: flags, TransportSeat: -1}`
unfoldable pub new_movement : ℕ → Movement
new_movement flags = record {
  update_flags = flags;
  move_flags = 0;
  move_extra = 0;
  move_time = 0;
  position = (0, 0, 0, 0);
  transport_guid = 0;
  transport_position = (0, 0, 0, 0);
  transport_time = 0;
  transport_time2 = 0;
  transport_seat = 0xff;
  pitch = 0;
  fall_time = 0;
  jump = (0, 0, 0, 0);
  spline_elevation = 0;
  speeds = [];
  corpse_orientation = 0;
  attack_target = 0;
  transport_path_time = 0;
  vehicle_id = 0;
  vehicle_orientation = 0;
  packed_rotation = 0;
  spline = none;
}
