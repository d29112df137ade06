-- ===== src/Movement/Legacy/RoundTrip.antt =====
-- What `parseLegacyPlayerMovement` reads from a body of `EncodeLegacyPlayerMovement`
-- (internal/modernworld/player_movement.go).
use redscarf_proxy.Prelude.{
  ℕ, ◌<◌, ◌^◌, ◌≡◌, ◌≢◌, refl, arith, ◌==◌, if◌then◌else◌, false, List, [], ◌++◌, append-nil,
  bit_and, bit_or, ◌*◌, ◌%◌, Option, none, some, ◌&&◌, ◌||◌, shares, Bool-cases, inl, inr,
}
use redscarf_proxy.Prelude.Bits.{bit_or-lt, bit_and-lt}
use redscarf_proxy.Wire.Packed.{append_legacy_packed_guid}
use redscarf_proxy.Wire.Reader.{Reader, pure, ◌>>=◌, floats4}
use redscarf_proxy.Wire.Reader.Determined.{Takes}
use redscarf_proxy.Wire.Reader.Takes.{
  taken, number-then, byte-then, packed-then, optional-then, number-Takes, pure-Takes, bind-Takes,
}
use redscarf_proxy.Wire.Reader.Written.{concat}
use redscarf_proxy.Update.Movement.{
  Movement, new_movement, has, move_on_transport, move_falling, move_spline_elevation,
  move_interpolate,
}
use redscarf_proxy.Movement.{PlayerMovement, read_body, modern_movement_flags_to_legacy}
use redscarf_proxy.Movement.Legacy.{
  floats4_bytes, has_pitch, clamp_position, transport_info, movement_info, transport_bytes,
  legacy_flags, movement_bytes, encode_legacy_player_movement, own_number, speed_opcode,
  legacy_player_movement, parse_legacy_player_movement,
}

pub record IsFloats4 (v : ℕ × ℕ × ℕ × ℕ) : Type 0 where
  pub x_fits : v.0 < 2 ^ 32
  pub y_fits : v.1 < 2 ^ 32
  pub z_fits : v.2 < 2 ^ 32
  pub o_fits : v.3 < 2 ^ 32

-- The widths of the fields that are sent.
pub record IsMovement (move : Movement) : Type 0 where
  pub move_extra_fits : move.move_extra < 2 ^ 16
  pub move_time_fits : move.move_time < 2 ^ 32
  pub position_fits : IsFloats4 move.position
  pub transport_position_fits : IsFloats4 move.transport_position
  pub transport_time_fits : move.transport_time < 2 ^ 32
  pub transport_time2_fits : move.transport_time2 < 2 ^ 32
  pub pitch_fits : move.pitch < 2 ^ 32
  pub fall_time_fits : move.fall_time < 2 ^ 32
  pub jump_fits : IsFloats4 move.jump
  pub spline_elevation_fits : move.spline_elevation < 2 ^ 32

pub floats4-Takes : (v : ℕ × ℕ × ℕ × ℕ) → IsFloats4 v → Takes floats4 (floats4_bytes v) v
unfolding floats4 floats4_bytes concat
floats4-Takes v h = search (taken, h.x_fits, h.y_fits, h.z_fits, h.o_fits) depth 40

module _ {ℓ} {A : Type ℓ} where
  pub floats4-then :
      (v : ℕ × ℕ × ℕ × ℕ) (f : ℕ × ℕ × ℕ × ℕ → Reader A) (used : List ℕ) (a : A)
      → IsFloats4 v
      → Takes (f v) used a
      → Takes (floats4 >>= f) (floats4_bytes v ++ used) a
  floats4-then v f used a h = bind-Takes floats4 f (floats4_bytes v) used v a (floats4-Takes v h)

pub legacy_flags-lt :
    (movement : PlayerMovement) (transport_guid : ℕ)
    → movement.move.move_flags < 2 ^ 32
    → legacy_flags movement transport_guid < 2 ^ 32
unfolding legacy_flags modern_movement_flags_to_legacy
legacy_flags-lt movement transport_guid h =
    let modern : ℕ = movement.move.move_flags in
    let low : bit_and modern 0x1ff < 2 ^ 32 = bit_and-lt 32 modern 0x1ff h in
    let middle : bit_and modern 0x03fffe00 * 2 % 2 ^ 32 < 2 ^ 32 = omega arith in
    let high : bit_and modern 0x1c000000 * 4 % 2 ^ 32 < 2 ^ 32 = omega arith in
    let flags : modern_movement_flags_to_legacy modern < 2 ^ 32 =
      bit_or-lt 32 _ _ (bit_or-lt 32 _ _ low middle) high in
    let carried : bit_or (modern_movement_flags_to_legacy modern) move_on_transport < 2 ^ 32 =
      bit_or-lt 32 _ _ flags (omega arith) in
    ground arith

own_number-Takes :
    {A : Type 0} (opcode : ℕ)
    → (opcode == 0x0518) ≡ false
    → speed_opcode opcode ≡ false
    → (a : A) (b : Movement)
    → Takes {A = A × Movement × Option ℕ}
        (own_number opcode >>= λ number. pure (a, b, number))
        []
        (a, b, none)
unfolding own_number ◌>>=◌ pure
own_number-Takes opcode plain steady a b more = rw (plain, steady) refl

-- The flags of the 3.3.5 protocol for those of the 3.4.3 client, bit by bit, with the transport's.
unfoldable pub flags_on_wire : ℕ → ℕ → ℕ
flags_on_wire modern transport_guid =
    let flags =
      bit_or (bit_or (bit_and modern 0x1ff) (bit_and modern 0x03fffe00 * 2 % 2 ^ 32))
        (bit_and modern 0x1c000000 * 4 % 2 ^ 32) in
    if transport_guid == 0 then flags else bit_or flags 0x200

legacy_flags_lem :
    (movement : PlayerMovement) (transport_guid : ℕ)
    → legacy_flags movement transport_guid ≡ flags_on_wire movement.move.move_flags transport_guid
unfolding legacy_flags modern_movement_flags_to_legacy flags_on_wire
legacy_flags_lem movement transport_guid = refl

module _ (clamp : ℕ → ℕ) where
  abbrev carried_by : ℕ → Movement → Movement → Movement
  carried_by transport_guid move placed = record placed {
    transport_guid = transport_guid;
    transport_position = clamp_position clamp (clamp_position clamp move.transport_position);
    transport_time = move.transport_time;
    transport_seat = move.transport_seat;
    transport_time2 =
        if has move.move_extra move_interpolate
        then move.transport_time2
        else placed.transport_time2;
  }

  -- The movement that is read for one that was sent with these flags: blocks that were not sent are
  -- zero, and orientations are clamped by the sender and by the reader.
  unfoldable pub seen : ℕ → ℕ → Movement → Movement
  seen flags transport_guid move =
      let placed = record (new_movement 0) {
        move_flags = flags;
        move_extra = move.move_extra;
        move_time = move.move_time;
        position = clamp_position clamp (clamp_position clamp move.position);
      } in
      let carried =
        if has flags move_on_transport then carried_by transport_guid move placed else placed in
      record carried {
        pitch = if has_pitch flags move.move_extra then move.pitch else 0;
        fall_time = move.fall_time;
        jump = if has flags move_falling then move.jump else (0, 0, 0, 0);
        spline_elevation = if has flags move_spline_elevation then move.spline_elevation else 0;
      }

  -- The movement that arrives for one that is sent: with the transport on a transport, a pitch when
  -- swimming, flying or pitching, the jump when falling and the elevation on a spline; the rest is zero,
  -- and orientations are clamped by the sender and by the reader.
  unfoldable pub arriving : ℕ → ℕ → Movement → Movement
  arriving flags transport_guid move = record {
    update_flags = 0;
    move_flags = flags;
    move_extra = move.move_extra;
    move_time = move.move_time;
    position = (move.position.0, move.position.1, move.position.2, clamp (clamp move.position.3));
    transport_guid = if shares flags 0x200 then transport_guid else 0;
    transport_position =
        if shares flags 0x200
        then (
          move.transport_position.0,
          move.transport_position.1,
          move.transport_position.2,
          clamp (clamp move.transport_position.3),
        )
        else (0, 0, 0, 0);
    transport_time = if shares flags 0x200 then move.transport_time else 0;
    transport_time2 =
        if shares flags 0x200 && shares move.move_extra 0x400 then move.transport_time2 else 0;
    transport_seat = if shares flags 0x200 then move.transport_seat else 0xff;
    pitch = if shares flags 0x02200000 || shares move.move_extra 0x20 then move.pitch else 0;
    fall_time = move.fall_time;
    jump = if shares flags 0x1000 then move.jump else (0, 0, 0, 0);
    spline_elevation = if shares flags 0x04000000 then move.spline_elevation else 0;
    speeds = [];
    corpse_orientation = 0;
    attack_target = 0;
    transport_path_time = 0;
    vehicle_id = 0;
    vehicle_orientation = 0;
    packed_rotation = 0;
    spline = none;
  }

  seen_lem :
      (flags transport_guid : ℕ) (move : Movement)
      → seen flags transport_guid move ≡ arriving flags transport_guid move
  unfolding seen arriving has has_pitch new_movement clamp_position
  seen_lem flags transport_guid move = elim (Bool-cases (shares flags 0x200)) [
    | inl carried ↦ rw carried refl
    | inr carried ↦ rw carried refl
  ]

module _ (clamp : ℕ → ℕ) (narrow : (o : ℕ) → clamp o < 2 ^ 32) where
  pub clamp_position-IsFloats4 :
      (v : ℕ × ℕ × ℕ × ℕ) → IsFloats4 v → IsFloats4 (clamp_position clamp v)
  unfolding clamp_position
  clamp_position-IsFloats4 v h = record {
    x_fits = h.x_fits;
    y_fits = h.y_fits;
    z_fits = h.z_fits;
    o_fits = narrow v.3;
  }

  transport_info-Takes :
      (transport_guid : ℕ) (move placed : Movement)
      → transport_guid < 2 ^ 64
      → IsMovement move
      → Takes
          (transport_info clamp move.move_extra placed)
          (transport_bytes clamp transport_guid move)
          (carried_by clamp transport_guid move placed)
  unfolding transport_info transport_bytes concat
  transport_info-Takes transport_guid move placed g h = packed-then _ _ _ _ g (
      floats4-then _ _ _ _
        (clamp_position-IsFloats4 move.transport_position h.transport_position_fits)
        (number-then _ _ _ _ _ h.transport_time_fits (
          byte-then _ _ _ _ (
            optional-then _ _ _ _ _ _ _ _
              (number-Takes 4 move.transport_time2 h.transport_time2_fits) (pure-Takes _)))))

  pub movement_info-Takes :
      (flags transport_guid : ℕ) (move : Movement)
      → flags < 2 ^ 32
      → transport_guid < 2 ^ 64
      → IsMovement move
      → Takes
          (movement_info clamp)
          (movement_bytes clamp flags transport_guid move)
          (seen clamp flags transport_guid move)
  unfolding movement_info movement_bytes concat seen new_movement
  movement_info-Takes flags transport_guid move f g h = number-then _ _ _ _ _ f (
      number-then _ _ _ _ _ h.move_extra_fits (
        number-then _ _ _ _ _ h.move_time_fits (
          floats4-then _ _ _ _ (clamp_position-IsFloats4 move.position h.position_fits) (
            optional-then _ _ _ _ _ _ _ _ (transport_info-Takes transport_guid move _ g h) (
              optional-then _ _ _ _ _ _ _ _ (number-Takes 4 move.pitch h.pitch_fits) (
                number-then _ _ _ _ _ h.fall_time_fits (
                  optional-then _ _ _ _ _ _ _ _ (floats4-Takes move.jump h.jump_fits) (
                    optional-then _ _ _ _ _ _ _ _
                      (number-Takes 4 move.spline_elevation h.spline_elevation_fits)
                      (pure-Takes _)))))))))

  -- For a mover that is not empty, the body that is sent is read, by any opcode that has no number of
  -- its own, as that mover and as the movement that must arrive: with the client's flags moved to their
  -- legacy bits and the transport's bit set on a transport, and with each block that these flags call for.
  -- Orientations have been clamped by the sender and by the reader. Fields have their widths.
  pub parse-encode_legacy_player_movement :
      (opcode : ℕ) (movement : PlayerMovement) (mover_guid transport_guid : ℕ)
      → (opcode == 0x0518) ≡ false
      → speed_opcode opcode ≡ false
      → mover_guid ≢ 0
      → mover_guid < 2 ^ 64
      → transport_guid < 2 ^ 64
      → movement.move.move_flags < 2 ^ 32
      → IsMovement movement.move
      → (body : List ℕ) × (encode_legacy_player_movement clamp movement mover_guid transport_guid
          ≡ some body)
        × (parse_legacy_player_movement clamp opcode body
            ≡ some (
              mover_guid,
              arriving clamp
                  (flags_on_wire movement.move.move_flags transport_guid)
                  transport_guid
                  movement.move,
              none,
            ))
  unfolding encode_legacy_player_movement parse_legacy_player_movement legacy_player_movement
      read_body
  parse-encode_legacy_player_movement opcode movement mover_guid transport_guid plain steady
        some_mover m t f h =
      let flags : ℕ = legacy_flags movement transport_guid in
      let body : List ℕ =
        append_legacy_packed_guid [] mover_guid
        ++ movement_bytes clamp flags transport_guid movement.move in
      let sent : (mover_guid == 0) ≡ false = ground arith in
      let info : Takes (movement_info clamp)
          (movement_bytes clamp flags transport_guid movement.move)
          (seen clamp flags transport_guid movement.move) =
        movement_info-Takes flags transport_guid movement.move
          (legacy_flags-lt movement transport_guid f) t h in
      let rest : Takes {A = ℕ × Movement × Option ℕ}
          (movement_info clamp >>= λ move.
            own_number opcode >>= λ number. pure (mover_guid, move, number))
          (movement_bytes clamp flags transport_guid movement.move ++ [])
          (mover_guid, seen clamp flags transport_guid movement.move, none) =
        bind-Takes _ _ _ _ _ _ info (
          own_number-Takes opcode plain steady mover_guid
            (seen clamp flags transport_guid movement.move)) in
      let whole : Takes (legacy_player_movement clamp opcode) body
          (mover_guid, seen clamp flags transport_guid movement.move, none) =
        packed-then _ _ _ _ m
          (rw (append-nil (movement_bytes clamp flags transport_guid movement.move)) at rest) in
      let read : legacy_player_movement clamp opcode body
          ≡ some ((mover_guid, seen clamp flags transport_guid movement.move, none), []) =
        rw (append-nil body) at (whole []) in
      let same : seen clamp flags transport_guid movement.move
          ≡ arriving clamp (flags_on_wire movement.move.move_flags transport_guid) transport_guid
              movement.move =
        rw
          (
            seen_lem clamp flags transport_guid movement.move,
            legacy_flags_lem movement transport_guid,
          )
          refl in
      (body, rw sent refl, rw (parse_legacy_player_movement, read_body, read, same) refl)
