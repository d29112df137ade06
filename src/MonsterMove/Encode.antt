-- ===== src/MonsterMove/Encode.antt =====
-- `EncodeMonsterMove` of internal/modernworld/monster_move.go. The floating point operations of the rocket
-- jump and `clampOrientation` are parameters.
use redscarf_proxy.Prelude.{
  ℕ, ◌+◌, ◌-◌, ◌/◌, ◌%◌, ◌^◌, ◌==◌, ◌&&◌, ◌||◌, not, leb, ltb, bit_or, if◌then◌else◌, Bool, false,
  List, [], ◌∷◌, ◌++◌, Option, none, some, length, map,
}
use redscarf_proxy.Guid.{Guid128}
use redscarf_proxy.Wire.Bytes.{le_bytes}
use redscarf_proxy.Wire.BitWriter.{new_bit_writer, write_bit, write_bits, flush}
use redscarf_proxy.Wire.Packed.{append_packed_guid128}
use redscarf_proxy.Wire.Reader.Written.{concat}
use redscarf_proxy.Update.Movement.{has, Point}
use redscarf_proxy.Movement.Modern.{floats3_bytes}
use redscarf_proxy.MonsterMove.{
  LegacyMonsterMove, legacy_spline_trajectory, max_monster_move_points, is_curve,
}

unfoldable pub modern_spline_type : ℕ → Option ℕ
modern_spline_type legacy =
    if legacy == 0 || legacy == 1
    then some 0
    else (if legacy == 2
        then some 1
        else (if legacy == 3 then some 2 else (if legacy == 4 then some 3 else none)))

abbrev modern_spline_can_swim : ℕ
modern_spline_can_swim = 0x00200000

abbrev modern_spline_anim_tier_swim : ℕ
modern_spline_anim_tier_swim = 0x00000001

abbrev modern_spline_uncompressed_path : ℕ
modern_spline_uncompressed_path = 0x00400000

abbrev modern_taxi_spline_flags : ℕ
modern_taxi_spline_flags = 0x91600a00

-- The low three bits count; on the 3.4.3 side they are one bit each.
unfoldable pub animation_tier : ℕ → ℕ
animation_tier legacy =
    let tier : ℕ = legacy % 8 in
    if tier == 1
    then 1
    else (if tier == 2 then 2 else (if tier == 3 then 4 else (if tier == 4 then 8 else 0)))

unfoldable pub with_flag : ℕ → ℕ × ℕ → ℕ → ℕ
with_flag legacy (flag, bits) modern = if has legacy flag then bit_or modern bits else modern

unfoldable pub with_flags : ℕ → List (ℕ × ℕ) → ℕ → ℕ
with_flags legacy [] modern = modern
with_flags legacy (entry ∷ entries) modern =
    with_flags legacy entries (with_flag legacy entry modern)

-- The tests in the order of the source, each with the bits that it adds.
abbrev pub spline_flag_table : List (ℕ × ℕ)
spline_flag_table =
    (0x00001000, 0x00200000)
    ∷ (0x00000100, 0x00000020)
    ∷ (0x00000200, 0x00000040)
    ∷ (0x00000400, 0x00000080)
    ∷ (0x00000800, 0x04000000)
    ∷ (0x00002000, 0x00000a00)
    ∷ (0x00040000, 0x00000800)
    ∷ (0x00080000, 0x00001000)
    ∷ (0x00100000, 0x00002000)
    ∷ (0x00400000, 0x00004000)
    ∷ (0x01000000, 0x00010000)
    ∷ (0x04000000, 0x20000000)
    ∷ (0x20000000, 0x02000000)
    ∷ (0x40000000, 0x00400000)
    ∷ (0x80000000, 0x80000000)
    ∷ []

unfoldable pub modern_spline_flags : ℕ → ℕ
modern_spline_flags legacy = with_flags legacy spline_flag_table (animation_tier legacy)

-- A float is zero whatever its sign.
abbrev zero_float : ℕ → Bool
zero_float x = x % 2 ^ 31 == 0

unfoldable pub zero_vector3 : Point → Bool
zero_vector3 (x, y, z) = zero_float x && zero_float y && zero_float z

unfoldable pub has_jump_extra : LegacyMonsterMove → Bool
has_jump_extra move =
    has move.flags legacy_spline_trajectory
    || not (zero_float move.jump_gravity)
    || not (move.jump_start_time == 0)

-- float32, by its operations on bit patterns.
pub record Float32 : Type 0 where
  pub of_uint32 : ℕ → ℕ
  pub mul : ℕ → ℕ → ℕ
  pub div : ℕ → ℕ → ℕ
  pub le : ℕ → ℕ → Bool
  pub lt : ℕ → ℕ → Bool

abbrev gunship_jump_min_duration_ms : ℕ
gunship_jump_min_duration_ms = 1200

unfoldable pub is_legacy_mo_transport_guid : ℕ → Bool
is_legacy_mo_transport_guid guid = guid / 2 ^ 48 == 0x1fc0

module _ (float : Float32) where
  abbrev seconds : ℕ → ℕ
  seconds milliseconds = float.div (float.of_uint32 milliseconds) (float.of_uint32 1000)

  -- The new duration and gravity of a jump that lasts `duration - start`.
  unfoldable pub stretched_jump : ℕ → ℕ → ℕ → ℕ × ℕ
  stretched_jump duration start gravity =
      let original : ℕ = seconds (duration - start) in
      let apex : ℕ =
        float.div (float.mul (float.mul gravity original) original) (float.of_uint32 8) in
      let least : ℕ = (start + gunship_jump_min_duration_ms) % 2 ^ 32 in
      let longer : ℕ = if ltb duration least then least else duration in
      let lasts : ℕ = seconds ((longer + 2 ^ 32 - start) % 2 ^ 32) in
      let high : ℕ = if float.lt apex (float.of_uint32 10) then float.of_uint32 10 else apex in
      if float.le original (float.of_uint32 0)
      then (duration, gravity)
      else (longer, float.div (float.mul high (float.of_uint32 8)) (float.mul lasts lasts))

  unfoldable pub gunship_rocket_jump : LegacyMonsterMove → ℕ × ℕ
  gunship_rocket_jump move =
      if float.le move.jump_gravity (float.of_uint32 0)
        || not (has_jump_extra move)
        || not (is_legacy_mo_transport_guid move.transport_guid)
        || leb move.duration move.jump_start_time
      then (move.duration, move.jump_gravity)
      else stretched_jump move.duration move.jump_start_time move.jump_gravity

  -- The flags, the points and the deltas that are sent.
  unfoldable pub sent_path : LegacyMonsterMove → ℕ × List Point × List ℕ
  sent_path move =
      let mapped : ℕ = modern_spline_flags move.flags in
      let flags : ℕ =
        if move.swimming
        then bit_or mapped (bit_or modern_spline_can_swim modern_spline_anim_tier_swim)
        else mapped in
      if move.taxi_start
      then (modern_taxi_spline_flags, move.points, move.packed_deltas)
      else (if move.uncompressed || is_curve move.flags
          then (bit_or flags modern_spline_uncompressed_path, move.points, move.packed_deltas)
          else (if move.has_end || not (zero_vector3 move.end)
              then (flags, move.end ∷ [], move.packed_deltas)
              else (flags, [], [])))

  unfoldable pub tolerance_bits : List Point → List ℕ
  tolerance_bits points =
      (flush (
        write_bits (if length points == 0 then 2 else 0) 3
          (write_bit false (new_bit_writer [])))).bytes

  unfoldable pub count_bits : ℕ → List Point → List ℕ → Bool → List ℕ
  count_bits modern_type points deltas jump =
      (flush (
        write_bit jump (
          write_bit false (
            write_bit false (
              write_bits (length deltas) 16 (
                write_bit false (
                  write_bit false (
                    write_bits (length points) 16
                      (write_bits modern_type 2 (new_bit_writer [])))))))))).bytes

  module _ (clamp : ℕ → ℕ) where
    unfoldable pub facing_bytes : ℕ → LegacyMonsterMove → Guid128 → List ℕ
    facing_bytes modern_type move facing_target =
        if modern_type == 1
        then floats3_bytes move.facing
        else (if modern_type == 2
            then le_bytes 4 0 ++ append_packed_guid128 [] facing_target
            else (if modern_type == 3 then le_bytes 4 (clamp move.facing_angle) else []))

    unfoldable pub move_bytes :
        LegacyMonsterMove → Guid128 → Guid128 → Guid128 → ℕ → ℕ × List Point × List ℕ → List ℕ
    move_bytes move mover transport facing_target modern_type (flags, points, deltas) =
        let (duration, gravity) = gunship_rocket_jump move in
        concat (
          append_packed_guid128 [] mover
          ∷ floats3_bytes move.start
          ∷ le_bytes 4 move.spline_id
          ∷ floats3_bytes (0, 0, 0)
          ∷ tolerance_bits points
          ∷ le_bytes 4 flags
          ∷ le_bytes 4 move.elapsed
          ∷ le_bytes 4 duration
          ∷ le_bytes 4 0
          ∷ (move.mode ∷ [])
          ∷ append_packed_guid128 [] transport
          ∷ (move.transport_seat ∷ [])
          ∷ count_bits modern_type points deltas (has_jump_extra move)
          ∷ facing_bytes modern_type move facing_target
          ∷ concat (map floats3_bytes points)
          ∷ concat (map (le_bytes 4) deltas)
          ∷ (if has_jump_extra move
              then le_bytes 4 gravity ++ le_bytes 4 move.jump_start_time
              else [])
          ∷ [])

    unfoldable pub encode_monster_move :
        LegacyMonsterMove → Guid128 → Guid128 → Guid128 → Option (List ℕ)
    encode_monster_move move mover transport facing_target =
        if mover.low == 0 && mover.high == 0
        then none
        else elim (modern_spline_type move.spline_type) [
          | none ↦ none
          | some modern_type ↦
              let path = sent_path move in
              if ltb max_monster_move_points (length path.1)
                || ltb max_monster_move_points (length path.2)
              then none
              else some (move_bytes move mover transport facing_target modern_type path)
        ]
