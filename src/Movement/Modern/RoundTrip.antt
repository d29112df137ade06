-- ===== src/Movement/Modern/RoundTrip.antt =====
-- `modernMovementStats` of internal/modernworld/player_movement.go reads what
-- `appendModernMovementInfoDetails` of internal/modernworld/active_player.go writes.
use redscarf_proxy.Prelude.{
  ℕ, ◌<◌, ◌^◌, ◌≡◌, refl, arith, ◌==◌, not, if◌then◌else◌, Bool, true, false, List, [], ◌∷◌, ◌++◌,
  append-nil, none, some, bit_and, bit_or, ◌/◌, ◌&&◌, shares, Bool-cases, inl, inr,
}
use redscarf_proxy.Prelude.Bits.{bit_or-lt, bit_and-lt}
use redscarf_proxy.Guid.{Guid128, zero_guid}
use redscarf_proxy.Wire.BitWriter.{write_bit, flush, new_bit_writer}
use redscarf_proxy.Wire.Reader.{Reader, pure, ◌>>=◌, optional, replicate, floats3}
use redscarf_proxy.Wire.Reader.Determined.{Takes}
use redscarf_proxy.Wire.Reader.Takes.{
  taken, number-then, byte-then, packed128-then, optional-then, optional-Takes, number-Takes,
  pure-Takes, guard-Takes,
}
use redscarf_proxy.Wire.Reader.Written.{concat}
use redscarf_proxy.Update.Movement.{Movement, new_movement, has}
use redscarf_proxy.Movement.{PlayerMovement, modern_movement_flags, read_body}
use redscarf_proxy.Movement.Legacy.{clamp_position}
use redscarf_proxy.Movement.Legacy.RoundTrip.{IsMovement, floats4-then, clamp_position-IsFloats4}
use redscarf_proxy.Movement.Modern.{
  bit_at, floats3_bytes, fall_part, transport_part, stats_parts, stats_removed,
  modern_movement_stats, has_transport, has_fall_direction, has_fall, status_bits, transport_bits,
  fall_bits, transport_piece, fall_piece, append_modern_movement_info_details,
  parse_modern_player_movement, encode_move_update,
}

pub record IsGuid128 (g : Guid128) : Type 0 where
  pub low_fits : g.low < 2 ^ 64
  pub high_fits : g.high < 2 ^ 64

-- One byte of bits, and what the reader finds in it.
abbrev IsStatus : Bool → Bool → ℕ → Type 0
IsStatus transport fall b =
    (bit_at 0 b ≡ false)
    × (bit_at 1 b ≡ transport)
    × (bit_at 2 b ≡ fall)
    × (bit_at 6 b ≡ false)
    × (bit_at 7 b ≡ false)

status_bits-IsStatus :
    (transport fall spline : Bool)
    → (b : ℕ) × (status_bits transport fall spline ≡ b ∷ []) × IsStatus transport fall b
unfolding status_bits write_bit flush new_bit_writer bit_at
status_bits-IsStatus false false false = (_, refl, (refl, refl, refl, refl, refl))
status_bits-IsStatus false false true = (_, refl, (refl, refl, refl, refl, refl))
status_bits-IsStatus false true false = (_, refl, (refl, refl, refl, refl, refl))
status_bits-IsStatus false true true = (_, refl, (refl, refl, refl, refl, refl))
status_bits-IsStatus true false false = (_, refl, (refl, refl, refl, refl, refl))
status_bits-IsStatus true false true = (_, refl, (refl, refl, refl, refl, refl))
status_bits-IsStatus true true false = (_, refl, (refl, refl, refl, refl, refl))
status_bits-IsStatus true true true = (_, refl, (refl, refl, refl, refl, refl))

transport_bits_byte :
    (vehicle : Bool)
    → (b : ℕ) × (transport_bits vehicle ≡ b ∷ []) × (bit_at 0 b ≡ false) × (bit_at 1 b ≡ vehicle)
unfolding transport_bits write_bit flush new_bit_writer bit_at
transport_bits_byte false = (_, refl, refl, refl)
transport_bits_byte true = (_, refl, refl, refl)

fall_bits_byte :
    (direction : Bool) → (b : ℕ) × (fall_bits direction ≡ b ∷ []) × (bit_at 0 b ≡ direction)
unfolding fall_bits write_bit flush new_bit_writer bit_at
fall_bits_byte false = (_, refl, refl)
fall_bits_byte true = (_, refl, refl)

module _ {ℓ κ} {A : Type ℓ} {B : Type κ} where
  pure-then :
      (b : B) (f : B → Reader A) (used : List ℕ) (a : A)
      → Takes (f b) used a
      → Takes (pure b >>= f) used a
  unfolding ◌>>=◌ pure
  pure-then b f used a h = h

  none-then :
      (p : Reader B) (missing : B) (f : B → Reader A) (used : List ℕ) (a : A)
      → Takes (f missing) used a
      → Takes (optional false p missing >>= f) used a
  unfolding optional ◌>>=◌ pure
  none-then p missing f used a h = h

floats3-Takes :
    (v : ℕ × ℕ × ℕ) → v.0 < 2 ^ 32 → v.1 < 2 ^ 32 → v.2 < 2 ^ 32 → Takes floats3 (floats3_bytes v) v
unfolding floats3 floats3_bytes concat
floats3-Takes v x y z = search (taken, x, y, z) depth 40

-- A movement with the fall fields of another; the direction is zero if it was not sent.
unfoldable pub with_fall : Movement → Movement → Movement
with_fall move placed =
    let direction : ℕ × ℕ × ℕ =
      if has_fall_direction move then (move.jump.1, move.jump.2, move.jump.3) else (0, 0, 0) in
    record placed {
      fall_time = move.fall_time;
      jump = (move.jump.0, direction.0, direction.1, direction.2);
    }

fall_part-Takes :
    (move : Movement) (result : PlayerMovement)
    → IsMovement move
    → Takes
        (fall_part result)
        (fall_piece move)
        (record result { move = with_fall move result.move })
unfolding fall_part fall_piece concat with_fall
fall_part-Takes move result h =
    let (b, e, direction) = fall_bits_byte (has_fall_direction move) in
    rw e (
      number-then _ _ _ _ _ h.fall_time_fits (
        number-then _ _ _ _ _ h.jump_fits.x_fits (
          byte-then _ _ _ _ (
            rw direction (
              optional-then _ _ _ _ _ _ _ _
                (floats3-Takes (move.jump.1, move.jump.2, move.jump.3) h.jump_fits.y_fits
                  h.jump_fits.z_fits h.jump_fits.o_fits)
                (pure-Takes _))))))

module _ (clamp : ℕ → ℕ) where
  -- The blocks of a transport: what is written is clamped by the reader.
  unfoldable pub with_transport : Movement → Guid128 → PlayerMovement → PlayerMovement
  with_transport move transport result = record result {
    transport = transport;
    move = record result.move {
      transport_position = clamp_position clamp move.transport_position;
      transport_seat = move.transport_seat;
      transport_time = move.transport_time;
      transport_time2 = 0;
      vehicle_id = if not (move.vehicle_id == 0) then move.vehicle_id else 0;
    };
  }

  -- The movement that is read before the blocks.
  abbrev standing : Movement → Guid128 → PlayerMovement
  standing move mover = record {
    mover = mover;
    transport = zero_guid;
    move = record (new_movement 0) {
      move_flags = modern_movement_flags move.move_flags;
      move_extra = 0x200;
      move_time = move.move_time;
      position = clamp_position clamp (clamp_position clamp move.position);
      pitch = clamp move.pitch;
      spline_elevation = move.spline_elevation;
    };
  }

  -- The movement that is read for one that is written.
  unfoldable seen_modern : Movement → Guid128 → Guid128 → PlayerMovement
  seen_modern move mover transport =
      let carried : PlayerMovement =
        if has_transport transport
        then with_transport move transport (standing move mover)
        else standing move mover in
      if has_fall move then record carried { move = with_fall move carried.move } else carried

  -- The movement that arrives for one that is sent, with the bits of the 3.4.3 client's flags: with the
  -- transport's blocks for a transport that is not empty, and with the fall for one that falls, or has
  -- fallen for a time. A direction goes with one that falls; the rest is zero.
  unfoldable pub arriving_modern : Movement → Guid128 → Guid128 → PlayerMovement
  arriving_modern move mover transport =
      let carried : Bool = not (transport.low == 0 && transport.high == 0) in
      let falling : Bool = shares move.move_flags 0x3000 in
      record {
        mover = mover;
        transport = if carried then transport else record { low = 0; high = 0 };
        move = record {
          update_flags = 0;
          move_flags =
              bit_or
                (bit_or (bit_and move.move_flags 0x1ff) (bit_and move.move_flags 0x07fffc00 / 2))
                (bit_and move.move_flags 0x70000000 / 4);
          move_extra = 0x200;
          move_time = move.move_time;
          position =
              (move.position.0, move.position.1, move.position.2, clamp (clamp move.position.3));
          transport_guid = 0;
          transport_position =
              if carried
              then (
                move.transport_position.0,
                move.transport_position.1,
                move.transport_position.2,
                clamp move.transport_position.3,
              )
              else (0, 0, 0, 0);
          transport_time = if carried then move.transport_time else 0;
          transport_time2 = 0;
          transport_seat = if carried then move.transport_seat else 0xff;
          pitch = clamp move.pitch;
          fall_time = move.fall_time;
          jump =
              if falling
              then move.jump
              else (if move.fall_time == 0 then (0, 0, 0, 0) else (move.jump.0, 0, 0, 0));
          spline_elevation = move.spline_elevation;
          speeds = [];
          corpse_orientation = 0;
          attack_target = 0;
          transport_path_time = 0;
          vehicle_id = if carried then move.vehicle_id else 0;
          vehicle_orientation = 0;
          packed_rotation = 0;
          spline = none;
        };
      }

  vehicle_or_zero : (id : ℕ) → (if not (id == 0) then id else 0) ≡ id
  vehicle_or_zero id = ground arith

  -- The fall of a movement, on a session's movement that has none.
  fallen :
      (move : Movement) (result : PlayerMovement)
      → result.move.fall_time ≡ 0
      → result.move.jump ≡ (0, 0, 0, 0)
      → (if has_fall move then record result { move = with_fall move result.move } else result)
        ≡ record result {
          move = record result.move {
            fall_time = move.fall_time;
            jump =
                if shares move.move_flags 0x3000
                then move.jump
                else (if move.fall_time == 0 then (0, 0, 0, 0) else (move.jump.0, 0, 0, 0));
          };
        }
  unfolding has_fall has_fall_direction has with_fall
  fallen move result time jump = elim (Bool-cases (shares move.move_flags 0x3000)) [
    | inl falling ↦ rw falling refl
    | inr steady ↦ elim (Bool-cases (move.fall_time == 0)) [
      | inl never ↦
          let zero_time : move.fall_time ≡ 0 = ground arith in
          let times : result.move.fall_time ≡ move.fall_time = rw zero_time time in
          rw (steady, never)
            (λ i. record result {
              move = record result.move { fall_time = times i; jump = jump i };
            })
      | inr before ↦ rw (steady, before) refl
    ]
  ]

  seen_modern_lem :
      (move : Movement) (mover transport : Guid128)
      → seen_modern move mover transport ≡ arriving_modern move mover transport
  unfolding seen_modern arriving_modern has_transport with_transport new_movement clamp_position
      modern_movement_flags
  seen_modern_lem move mover transport = elim (Bool-cases (transport.low == 0)) [
    | inl low ↦ elim (Bool-cases (transport.high == 0)) [
      | inl high ↦ rw (low, high, fallen move (standing move mover) refl refl) refl
      | inr high ↦
          rw
            (
              low,
              high,
              fallen move (with_transport move transport (standing move mover)) refl refl,
              vehicle_or_zero move.vehicle_id,
            )
            refl
    ]
    | inr low ↦
        rw
          (
            low,
            fallen move (with_transport move transport (standing move mover)) refl refl,
            vehicle_or_zero move.vehicle_id,
          )
          refl
  ]

module _ (clamp : ℕ → ℕ) (narrow : (o : ℕ) → clamp o < 2 ^ 32) where
  transport_part-Takes :
      (move : Movement) (transport : Guid128) (result : PlayerMovement)
      → IsMovement move
      → IsGuid128 transport
      → move.vehicle_id < 2 ^ 32
      → Takes
          (transport_part clamp result)
          (transport_piece move transport)
          (with_transport clamp move transport result)
  unfolding transport_part transport_piece concat with_transport
  transport_part-Takes move transport result h g v =
      let (b, e, previous, vehicle) = transport_bits_byte (not (move.vehicle_id == 0)) in
      rw e (
        packed128-then _ _ _ _ g.low_fits g.high_fits (
          floats4-then _ _ _ _ h.transport_position_fits (
            byte-then _ _ _ _ (
              number-then _ _ _ _ _ h.transport_time_fits (
                byte-then _ _ _ _ (
                  rw (previous, vehicle)
                    (none-then _ _ _ _ _ (
                      optional-then _ _ _ _ _ _ _ _ (number-Takes 4 move.vehicle_id v)
                        (pure-Takes _)))))))))

  stats_parts-Takes :
      (move : Movement) (transport : Guid128) (result : PlayerMovement)
      → IsMovement move
      → IsGuid128 transport
      → move.vehicle_id < 2 ^ 32
      → let carried =
          if has_transport transport then with_transport clamp move transport result else result in
        Takes
          (stats_parts clamp false (has_transport transport) (has_fall move) false false result)
          ((if has_transport transport then transport_piece move transport else [])
            ++ ((if has_fall move then fall_piece move else []) ++ []))
          (if has_fall move then record carried { move = with_fall move carried.move } else carried)
  unfolding stats_parts
  stats_parts-Takes move transport result h g v =
      optional-then _ _ _ _ _ _ _ _ (transport_part-Takes move transport result h g v) (
        none-then _ _ _ _ _ (
          none-then _ _ _ _ _ (
            none-then _ _ _ _ _ (
              rw (append-nil (if has_fall move then fall_piece move else [])) (
                optional-Takes (has_fall move) _ (fall_piece move) _ _
                  (fall_part-Takes move _ h))))))

  modern_movement_flags-lt : (flags : ℕ) → flags < 2 ^ 32 → modern_movement_flags flags < 2 ^ 32
  unfolding modern_movement_flags
  modern_movement_flags-lt flags h =
      let low : bit_and flags 0x1ff < 2 ^ 32 = bit_and-lt 32 flags 0x1ff h in
      let middle : bit_and flags 0x07fffc00 < 2 ^ 32 = bit_and-lt 32 flags 0x07fffc00 h in
      let high : bit_and flags 0x70000000 < 2 ^ 32 = bit_and-lt 32 flags 0x70000000 h in
      bit_or-lt 32 _ _ (bit_or-lt 32 _ _ low (omega arith)) (omega arith)

  stats-Takes :
      (move : Movement) (mover transport : Guid128) (spline : Bool)
      → IsMovement move
      → IsGuid128 mover
      → IsGuid128 transport
      → move.vehicle_id < 2 ^ 32
      → move.move_flags < 2 ^ 32
      → Takes
          (modern_movement_stats clamp)
          (append_modern_movement_info_details clamp mover move transport spline)
          (seen_modern clamp move mover transport)
  unfolding modern_movement_stats append_modern_movement_info_details stats_removed concat
      seen_modern replicate
  stats-Takes move mover transport spline h m g v f =
      let (b, e, (standing, carried, falls, inertia, flying)) =
        status_bits-IsStatus (has_transport transport) (has_fall move) spline in
      let parts : List ℕ =
        (if has_transport transport then transport_piece move transport else [])
        ++ ((if has_fall move then fall_piece move else []) ++ []) in
      rw e (
        packed128-then _ _ _ _ m.low_fits m.high_fits (
          number-then _ _ _ _ _ (modern_movement_flags-lt move.move_flags f) (
            number-then _ _ _ _ _ (omega arith) (
              number-then _ _ _ _ _ (omega arith) (
                number-then _ _ _ _ _ h.move_time_fits (
                  floats4-then _ _ _ _
                    (clamp_position-IsFloats4 clamp narrow move.position h.position_fits)
                    (number-then _ _ _ _ _ (narrow move.pitch) (
                      number-then _ _ _ _ _ h.spline_elevation_fits (
                        number-then _ _ _ _ _ (omega arith) (
                          guard-Takes _ _ _ _ refl (
                            number-then _ _ _ _ _ (omega arith) (
                              pure-then _ _ (b ∷ parts) _ (
                                byte-then b _ parts _ (
                                  rw (standing, carried, falls, inertia, flying)
                                    (stats_parts-Takes move transport _ h g v)))))))))))))))

  -- A movement that is written for the 3.4.3 client, with or without a transport, is read by the reader
  -- of that client's own packets as the movement that must arrive: with the modern bits of its flags, with
  -- the transport, if it is not empty, and with the fall, if it falls or has fallen for a time. Orientations
  -- are clamped again. Fields have their widths.
  pub parse-encode_move_update :
      (move : Movement) (mover transport : Guid128)
      → IsMovement move
      → IsGuid128 mover
      → IsGuid128 transport
      → move.vehicle_id < 2 ^ 32
      → move.move_flags < 2 ^ 32
      → parse_modern_player_movement clamp (encode_move_update clamp move mover transport)
        ≡ some (arriving_modern clamp move mover transport)
  unfolding parse_modern_player_movement encode_move_update read_body
  parse-encode_move_update move mover transport h m g v f =
      let body : List ℕ = append_modern_movement_info_details clamp mover move transport false in
      let read : modern_movement_stats clamp body
          ≡ some (seen_modern clamp move mover transport, []) =
        rw (append-nil body) at (stats-Takes move mover transport false h m g v f []) in
      rw (parse_modern_player_movement, read_body, read, seen_modern_lem clamp move mover transport)
        refl
