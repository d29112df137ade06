-- ===== src/MonsterMove.antt =====
-- internal/modernworld/monster_move.go: the movement of creatures and of taxis that the 3.3.5 server controls.
-- Floating point numbers are bit patterns; `clampOrientation` is a parameter. An error is `none`.
pub mod Accepted
pub mod Encode
use redscarf_proxy.Prelude.{
  ℕ, ◌+◌, ◌-◌, ◌%◌, ◌^◌, ◌==◌, leb, bit_or, if◌then◌else◌, Bool, true, false, List, [], ◌∷◌, Option,
  none, some,
}
use redscarf_proxy.Wire.Reader.{
  Reader, pure, fail, ◌>>=◌, u8, u32, u64, f32, packed_guid, optional, guard, replicate, floats3,
}
use redscarf_proxy.Update.Movement.{has, Point}
use redscarf_proxy.Movement.{read_body}

pub record LegacyMonsterMove : Type 0 where
  pub mover_guid : ℕ
  pub transport_guid : ℕ
  pub transport_seat : ℕ
  pub start : Point
  pub spline_id : ℕ
  pub spline_type : ℕ
  pub flags : ℕ
  pub duration : ℕ
  pub elapsed : ℕ
  pub uncompressed : Bool
  pub mode : ℕ
  pub facing_target : ℕ
  pub facing_angle : ℕ
  pub facing : Point
  pub points : List Point
  pub end : Point
  pub packed_deltas : List ℕ
  pub has_end : Bool
  pub jump_gravity : ℕ
  pub jump_start_time : ℕ
  pub taxi_start : Bool
  pub swimming : Bool

abbrev pub new_monster_move : LegacyMonsterMove
new_monster_move = record {
  mover_guid = 0;
  transport_guid = 0;
  transport_seat = 0;
  start = (0, 0, 0);
  spline_id = 0;
  spline_type = 0;
  flags = 0;
  duration = 0;
  elapsed = 0;
  uncompressed = false;
  mode = 0;
  facing_target = 0;
  facing_angle = 0;
  facing = (0, 0, 0);
  points = [];
  end = (0, 0, 0);
  packed_deltas = [];
  has_end = false;
  jump_gravity = 0;
  jump_start_time = 0;
  taxi_start = false;
  swimming = false;
}

abbrev pub legacy_spline_trajectory : ℕ
legacy_spline_trajectory = 0x00000800

abbrev pub legacy_spline_flying : ℕ
legacy_spline_flying = 0x00002000

abbrev pub legacy_spline_catmull_rom : ℕ
legacy_spline_catmull_rom = 0x00040000

abbrev pub legacy_spline_animation_tier : ℕ
legacy_spline_animation_tier = 0x00200000

abbrev pub legacy_spline_can_swim : ℕ
legacy_spline_can_swim = 0x00001000

abbrev pub max_monster_move_points : ℕ
max_monster_move_points = 0xffff

abbrev pub is_curve : ℕ → Bool
is_curve flags = has flags (bit_or legacy_spline_flying legacy_spline_catmull_rom)

unfoldable pub path_part : ℕ → LegacyMonsterMove → Reader LegacyMonsterMove
path_part count move =
    if is_curve move.flags
    then (do points ← replicate count floats3; pure (record move { points = points }))
    else (do
      end ← floats3
      deltas ← replicate (count - 1) u32
      pure (record move { end = end; has_end = true; packed_deltas = deltas }))

unfoldable pub tier_part : Reader ℕ
tier_part = do tier ← u8; start_time ← u32; pure start_time

unfoldable pub trajectory_part : Reader (ℕ × ℕ)
trajectory_part = do gravity ← f32; start_time ← u32; pure (gravity, start_time)

unfoldable pub spline_part : LegacyMonsterMove → Reader LegacyMonsterMove
spline_part move = do
  flags ← u32
  tier ← optional (has flags legacy_spline_animation_tier) tier_part 0
  duration ← u32
  jump ← optional (has flags legacy_spline_trajectory) trajectory_part (0, 0)
  count ← u32
  guard (leb count max_monster_move_points) (
      path_part count (record move {
        flags = flags;
        duration = duration;
        jump_gravity = jump.0;
        jump_start_time = jump.1;
      }))

unfoldable pub carrier_part : Reader (ℕ × ℕ)
carrier_part = do guid ← packed_guid; seat ← u8; pure (guid, seat)

module _ (clamp : ℕ → ℕ) where
  -- What the move faces, by its type. A stop has nothing behind its type.
  unfoldable pub facing_part : LegacyMonsterMove → Reader LegacyMonsterMove
  facing_part move =
      if move.spline_type == 0
      then spline_part move
      else (if move.spline_type == 1
          then pure move
          else (if move.spline_type == 2
              then (do facing ← floats3; spline_part (record move { facing = facing }))
              else (if move.spline_type == 3
                  then (do target ← u64; spline_part (record move { facing_target = target }))
                  else (if move.spline_type == 4
                      then (do
                        angle ← f32
                        spline_part (record move { facing_angle = clamp angle }))
                      else fail))))

  unfoldable pub monster_move : Bool → Reader LegacyMonsterMove
  monster_move transport = do
    mover ← packed_guid
    carrier ← optional transport carrier_part (0, 0)
    toggle ← u8
    start ← floats3
    spline_id ← u32
    spline_type ← u8
    facing_part (record new_monster_move {
      mover_guid = mover;
      transport_guid = carrier.0;
      transport_seat = carrier.1;
      start = start;
      spline_id = spline_id;
      spline_type = spline_type;
    })

  unfoldable pub parse_legacy_monster_move : List ℕ → Bool → Option LegacyMonsterMove
  parse_legacy_monster_move body transport = read_body (monster_move transport) body

unfoldable pub is_legacy_taxi_flight : LegacyMonsterMove → Bool
is_legacy_taxi_flight move = move.flags == bit_or legacy_spline_can_swim legacy_spline_flying
