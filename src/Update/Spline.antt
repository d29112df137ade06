-- ===== src/Update/Spline.antt =====
-- `movementSpline` of internal/modernworld/update_object.go.
use redscarf_proxy.Prelude.{ℕ, ◌^◌, leb, if◌then◌else◌, List}
use redscarf_proxy.Wire.Reader.{Reader, pure, ◌>>=◌, u8, u32, u64, f32, guard, replicate, floats3}
use redscarf_proxy.Update.Movement.{
  has, Point, Spline, spline_final_point, spline_final_target, spline_final_orientation,
}

abbrev max_spline_points : ℕ
max_spline_points = 2 ^ 20

-- What a spline faces: the target, the angle and the point. The source's `switch`.
unfoldable pub spline_facing : ℕ → Reader (ℕ × ℕ × Point)
spline_facing flags =
    if has flags spline_final_target
    then (do target ← u64; pure (target, 0, (0, 0, 0)))
    else (if has flags spline_final_orientation
        then (do angle ← f32; pure (0, angle, (0, 0, 0)))
        else (if has flags spline_final_point
            then (do point ← floats3; pure (0, 0, point))
            else pure (0, 0, (0, 0, 0))))

unfoldable pub spline_points : ℕ → Reader (List Point)
spline_points count = guard (leb count max_spline_points) (replicate count floats3)

unfoldable pub movement_spline : Reader Spline
movement_spline = do
  flags ← u32
  facing ← spline_facing flags
  time ← u32
  full_time ← u32
  id ← u32
  duration_modifier ← f32
  next_modifier ← f32
  vertical_accel ← u32
  start_time ← u32
  count ← u32
  points ← spline_points count
  mode ← u8
  end ← floats3
  pure (record {
    flags = flags;
    facing_target = facing.0;
    facing_angle = facing.1;
    facing = facing.2;
    time = time;
    full_time = full_time;
    id = id;
    duration_modifier = duration_modifier;
    next_modifier = next_modifier;
    vertical_accel = vertical_accel;
    start_time = start_time;
    points = points;
    mode = mode;
    end = end;
  })
