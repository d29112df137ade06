-- ===== src/Movement/Teleport.antt =====
-- internal/modernworld/teleport.go: the packets around a change of map and a teleport. An error of a
-- parser is `none`, and a pointer that may be nil an `Option`.
use redscarf_proxy.Prelude.{
  ℕ, ◌-◌, ◌^◌, ◌==◌, ◌||◌, ltb, if◌then◌else◌, Bool, true, false, List, [], ◌∷◌, ◌++◌, Option, none,
  some,
}
use redscarf_proxy.Guid.{Guid128}
use redscarf_proxy.Wire.Bytes.{le_bytes}
use redscarf_proxy.Wire.BitWriter.{new_bit_writer, write_bit, write_bits, flush}
use redscarf_proxy.Wire.Packed.{
  append_legacy_packed_guid, append_packed_guid128, read_packed_guid128,
}
use redscarf_proxy.Wire.Reader.{pure, ◌>>=◌, u8, u32, f32, packed_guid, floats3}
use redscarf_proxy.Wire.Reader.Written.{concat}
use redscarf_proxy.Update.Movement.{Movement}
use redscarf_proxy.Movement.{read_body}
use redscarf_proxy.Movement.Legacy.{movement_info}
use redscarf_proxy.Movement.Modern.{bit_at, floats3_bytes, has_transport}

abbrev is_some : {A : Type 0} → Option A → Bool
is_some none = false
is_some (some a) = true

pub record TransferPendingShip : Type 0 where
  pub id : ℕ
  pub origin_map_id : ℕ

pub record TransferPending : Type 0 where
  pub map_id : ℕ
  pub old_map_position : ℕ × ℕ × ℕ
  pub ship : Option TransferPendingShip
  pub transfer_spell_id : Option ℕ

abbrev pending_on : ℕ → Option TransferPendingShip → TransferPending
pending_on map_id ship = record {
  map_id = map_id;
  old_map_position = (0, 0, 0);
  ship = ship;
  transfer_spell_id = none;
}

-- A body has 4 or 12 bytes.
unfoldable pub parse_legacy_transfer_pending : List ℕ → Option TransferPending
parse_legacy_transfer_pending body =
    elim (read_body (do map_id ← u32; pure (pending_on map_id none)) body) [
      | some pending ↦ some pending
      | none ↦
          read_body
            (do
              map_id ← u32
              id ← u32
              origin_map_id ← u32
              pure (pending_on map_id (some (record { id = id; origin_map_id = origin_map_id }))))
            body
    ]

abbrev ship_bytes : Option TransferPendingShip → List ℕ
ship_bytes none = []
ship_bytes (some ship) = le_bytes 4 ship.id ++ le_bytes 4 ship.origin_map_id

abbrev spell_bytes : Option ℕ → List ℕ
spell_bytes none = []
spell_bytes (some spell) = le_bytes 4 spell

unfoldable pub encode_transfer_pending : TransferPending → List ℕ
encode_transfer_pending pending = concat (
    le_bytes 4 pending.map_id
    ∷ floats3_bytes pending.old_map_position
    ∷ (flush (
        write_bit (is_some pending.transfer_spell_id)
          (write_bit (is_some pending.ship) (new_bit_writer [])))).bytes
    ∷ ship_bytes pending.ship
    ∷ spell_bytes pending.transfer_spell_id
    ∷ [])

pub record TransferAborted : Type 0 where
  pub map_id : ℕ
  pub arg : ℕ
  pub map_difficulty_x_condition_id : ℕ
  pub reason : ℕ

-- -6 as an int32
abbrev transfer_abort_default_condition : ℕ
transfer_abort_default_condition = 2 ^ 32 - 6

abbrev aborted_by : ℕ → ℕ → ℕ → TransferAborted
aborted_by map_id reason arg = record {
  map_id = map_id;
  arg = arg;
  map_difficulty_x_condition_id = transfer_abort_default_condition;
  reason = reason;
}

-- A body has 5 or 6 bytes.
unfoldable pub parse_legacy_transfer_aborted : List ℕ → Option TransferAborted
parse_legacy_transfer_aborted body =
    elim (read_body (do map_id ← u32; reason ← u8; pure (aborted_by map_id reason 0)) body) [
      | some aborted ↦ some aborted
      | none ↦
          read_body (do map_id ← u32; reason ← u8; arg ← u8; pure (aborted_by map_id reason arg))
            body
    ]

unfoldable pub encode_transfer_aborted : TransferAborted → List ℕ
encode_transfer_aborted aborted = concat (
    le_bytes 4 aborted.map_id
    ∷ (aborted.arg ∷ [])
    ∷ le_bytes 4 aborted.map_difficulty_x_condition_id
    ∷ (flush (write_bits aborted.reason 6 (new_bit_writer []))).bytes
    ∷ [])

pub record NewWorld : Type 0 where
  pub map_id : ℕ
  pub position : ℕ × ℕ × ℕ
  pub orientation : ℕ
  pub reason : ℕ
  pub movement_offset : ℕ × ℕ × ℕ

abbrev new_world_reason_legacy : ℕ
new_world_reason_legacy = 4

pub record SuspendToken : Type 0 where
  pub sequence_index : ℕ
  pub reason : ℕ

unfoldable pub encode_suspend_token : SuspendToken → List ℕ
encode_suspend_token token =
    le_bytes 4 token.sequence_index ++ (flush (write_bits token.reason 2 (new_bit_writer []))).bytes

abbrev pub default_suspend_token : SuspendToken
default_suspend_token = record { sequence_index = 3; reason = 1 }

unfoldable pub parse_suspend_token_response : List ℕ → Option ℕ
parse_suspend_token_response = read_body u32

unfoldable pub encode_update_last_instance : ℕ → List ℕ
encode_update_last_instance map_id = le_bytes 4 map_id

pub record WorldServerInfo : Type 0 where
  pub difficulty_id : ℕ
  pub is_tournament_realm : ℕ
  pub instance_group_size : Option ℕ

unfoldable pub encode_world_server_info : WorldServerInfo → List ℕ
encode_world_server_info info = concat (
    le_bytes 4 info.difficulty_id
    ∷ (info.is_tournament_realm ∷ [])
    ∷ (flush (
        write_bit (is_some info.instance_group_size)
          (write_bit false (write_bit false (write_bit false (new_bit_writer [])))))).bytes
    ∷ spell_bytes info.instance_group_size
    ∷ [])

pub record MoveTeleport : Type 0 where
  pub mover : Guid128
  pub transport : Guid128
  pub move_counter : ℕ
  pub position : ℕ × ℕ × ℕ
  pub orientation : ℕ
  pub preload_world : ℕ
  pub vehicle_seat : Option ℕ

abbrev seat_bytes : Option ℕ → List ℕ
seat_bytes none = []
seat_bytes (some seat) =
    seat ∷ (flush (write_bit false (write_bit false (new_bit_writer [])))).bytes

-- A seat is an int8 and counts from 1.
abbrev seat_of : ℕ → Option ℕ
seat_of seat = if seat == 0 || ltb 127 seat then none else some seat

unfoldable pub move_teleport_from_legacy : Guid128 → ℕ → Movement → Guid128 → MoveTeleport
move_teleport_from_legacy guid counter move transport =
    let (x, y, z, o) = move.position in
    record {
      mover = guid;
      transport = transport;
      move_counter = counter;
      position = (x, y, z);
      orientation = o;
      preload_world = 0;
      vehicle_seat = seat_of move.transport_seat;
    }

module _ (clamp : ℕ → ℕ) where
  unfoldable pub parse_legacy_new_world : List ℕ → Option NewWorld
  parse_legacy_new_world = read_body (do
    map_id ← u32
    position ← floats3
    orientation ← f32
    pure (record {
      map_id = map_id;
      position = position;
      orientation = clamp orientation;
      reason = new_world_reason_legacy;
      movement_offset = (0, 0, 0);
    }))

  unfoldable pub encode_new_world : NewWorld → List ℕ
  encode_new_world world = concat (
      le_bytes 4 world.map_id
      ∷ floats3_bytes world.position
      ∷ le_bytes 4 (clamp world.orientation)
      ∷ le_bytes 4 world.reason
      ∷ floats3_bytes world.movement_offset
      ∷ [])

  unfoldable pub parse_legacy_move_teleport_ack : List ℕ → Option (ℕ × ℕ × Movement)
  parse_legacy_move_teleport_ack =
      read_body (do
        guid ← packed_guid
        counter ← u32
        move ← movement_info clamp
        pure (guid, counter, move))

  unfoldable pub encode_move_teleport : MoveTeleport → List ℕ
  encode_move_teleport teleport = concat (
      append_packed_guid128 [] teleport.mover
      ∷ le_bytes 4 teleport.move_counter
      ∷ floats3_bytes teleport.position
      ∷ le_bytes 4 (clamp teleport.orientation)
      ∷ (teleport.preload_world ∷ [])
      ∷ (flush (
          write_bit (is_some teleport.vehicle_seat)
            (write_bit (has_transport teleport.transport) (new_bit_writer [])))).bytes
      ∷ seat_bytes teleport.vehicle_seat
      ∷ (if has_transport teleport.transport
          then append_packed_guid128 [] teleport.transport
          else [])
      ∷ [])

pub record MoveTeleportAck : Type 0 where
  pub mover : Guid128
  pub move_counter : ℕ
  pub move_time : ℕ

unfoldable pub parse_move_teleport_ack : List ℕ → Option MoveTeleportAck
parse_move_teleport_ack = read_body (do
  mover ← read_packed_guid128
  move_counter ← u32
  move_time ← u32
  pure (record { mover = mover; move_counter = move_counter; move_time = move_time }))

unfoldable pub encode_legacy_move_teleport_ack : ℕ → MoveTeleportAck → List ℕ
encode_legacy_move_teleport_ack legacy_guid ack =
    append_legacy_packed_guid [] legacy_guid
    ++ (le_bytes 4 ack.move_counter ++ le_bytes 4 ack.move_time)

-- `true` is no error.
unfoldable pub parse_world_port_response : List ℕ → Bool
parse_world_port_response [] = true
parse_world_port_response (b ∷ bs) = false

pub record LoadingScreenNotify : Type 0 where
  pub map_id : ℕ
  pub showing : Bool

unfoldable pub parse_loading_screen_notify : List ℕ → Option LoadingScreenNotify
parse_loading_screen_notify =
    read_body
      (do map_id ← u32; bits ← u8; pure (record { map_id = map_id; showing = bit_at 0 bits }))

unfoldable pub encode_loading_screen_notify : LoadingScreenNotify → List ℕ
encode_loading_screen_notify notify =
    le_bytes 4 notify.map_id ++ (flush (write_bit notify.showing (new_bit_writer []))).bytes
