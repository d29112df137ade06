-- ===== src/Tests/TravelRuns.antt =====
-- Runs of teleport.go, taxi.go and movement_flags.go of internal/modernworld at concrete inputs.
use redscarf_proxy.Prelude.{◌≡◌, refl, true, List, [], ◌∷◌, Option, some, none, ℕ}
use redscarf_proxy.Wire.Bytes.{le_bytes, le_value}
use redscarf_proxy.Movement.{find_opcode, is_one_of, read_body}
use redscarf_proxy.Wire.Reader.{number, pure, take_bytes, ◌>>=◌}
use redscarf_proxy.Wire.Reader.Written.{concat}
use redscarf_proxy.Movement.Modern.{floats3_bytes}
use redscarf_proxy.Wire.BitWriter.{flush, new_bit_writer, write_bit, write_bits}
use redscarf_proxy.Wire.Packed.{
  append_packed_guid128, pack_loop, pack_uint64, read_packed_guid, unpack_loop,
}
use redscarf_proxy.Movement.Teleport.{
  parse_legacy_transfer_pending, encode_transfer_pending, parse_legacy_transfer_aborted,
  encode_transfer_aborted, encode_suspend_token, default_suspend_token, encode_world_server_info,
}
use redscarf_proxy.Movement.Taxi.{encode_activate_taxi_reply, encode_taxi_node_status}
use redscarf_proxy.Movement.Flags.{
  counted_flag_change, encode_modern_movement_flag_change, legacy_movement_flag_opcodes,
  legacy_spline_movement_flag_opcodes, parse_legacy_movement_flag_change,
}

abbrev translated_pending : List ℕ → List ℕ
translated_pending body = elim (parse_legacy_transfer_pending body) [
  | none ↦ []
  | some pending ↦ encode_transfer_pending pending
]

-- A ship, with its bit set.
ship_is_translated :
    translated_pending (59 ∷ 2 ∷ 0 ∷ 0 ∷ 72 ∷ 81 ∷ 0 ∷ 0 ∷ 0 ∷ 0 ∷ 0 ∷ 0 ∷ [])
    ≡ 59 ∷ 2 ∷ 0 ∷ 0 ∷ 0 ∷ 0 ∷ 0 ∷ 0 ∷ 0 ∷ 0 ∷ 0 ∷ 0 ∷ 0 ∷ 0 ∷ 0 ∷ 0 ∷ 128 ∷ 72 ∷ 81 ∷ 0 ∷ 0 ∷ 0 ∷ 0
      ∷ 0 ∷ 0 ∷ []
unfolding parse_legacy_transfer_pending read_body ◌>>=◌ number take_bytes pure
    encode_transfer_pending concat le_bytes le_value floats3_bytes flush write_bit new_bit_writer
ship_is_translated = refl

-- A body of three bytes is refused.
short_pending_is_refused : parse_legacy_transfer_pending (1 ∷ 2 ∷ 3 ∷ []) ≡ none
unfolding parse_legacy_transfer_pending read_body ◌>>=◌ number take_bytes
short_pending_is_refused = refl

abbrev translated_abort : List ℕ → List ℕ
translated_abort body = elim (parse_legacy_transfer_aborted body) [
  | none ↦ []
  | some aborted ↦ encode_transfer_aborted aborted
]

-- The reason 2 stands in the upper six bits.
abort_is_translated :
    translated_abort (33 ∷ 0 ∷ 0 ∷ 0 ∷ 2 ∷ 3 ∷ [])
    ≡ 33 ∷ 0 ∷ 0 ∷ 0 ∷ 3 ∷ 250 ∷ 255 ∷ 255 ∷ 255 ∷ 8 ∷ []
unfolding parse_legacy_transfer_aborted read_body ◌>>=◌ number take_bytes pure
    encode_transfer_aborted concat le_bytes le_value flush write_bits write_bit new_bit_writer
abort_is_translated = refl

suspend_token_bytes : encode_suspend_token default_suspend_token ≡ 3 ∷ 0 ∷ 0 ∷ 0 ∷ 64 ∷ []
unfolding encode_suspend_token le_bytes flush write_bits write_bit new_bit_writer
suspend_token_bytes = refl

instance_info_bytes :
    encode_world_server_info
      (record { difficulty_id = 1; is_tournament_realm = 0; instance_group_size = some 5 })
    ≡ 1 ∷ 0 ∷ 0 ∷ 0 ∷ 0 ∷ 16 ∷ 5 ∷ 0 ∷ 0 ∷ 0 ∷ []
unfolding encode_world_server_info concat le_bytes flush write_bit new_bit_writer
instance_info_bytes = refl

activate_reply_bytes : encode_activate_taxi_reply 3 ≡ 48 ∷ []
unfolding encode_activate_taxi_reply flush write_bits write_bit new_bit_writer
activate_reply_bytes = refl

learned_status_bytes :
    encode_taxi_node_status (record { low = 67; high = 1 }) true ≡ 1 ∷ 1 ∷ 67 ∷ 1 ∷ 64 ∷ []
unfolding encode_taxi_node_status flush write_bits write_bit new_bit_writer append_packed_guid128
    pack_uint64
learned_status_bytes = refl

-- The water walk of the mover 7 is translated with its counter.
abbrev translated_flag : ℕ → List ℕ → Option (List ℕ)
translated_flag opcode body = elim (parse_legacy_movement_flag_change opcode body) [
  | some (some change) ↦ encode_modern_movement_flag_change change (record { low = 7; high = 2 })
  | other ↦ none
]

water_walk_is_translated :
    translated_flag 0x00DE (1 ∷ 7 ∷ 5 ∷ 0 ∷ 0 ∷ 0 ∷ []) ≡ some (1 ∷ 1 ∷ 7 ∷ 2 ∷ 5 ∷ 0 ∷ 0 ∷ 0 ∷ [])
unfolding parse_legacy_movement_flag_change find_opcode legacy_movement_flag_opcodes is_one_of
    legacy_spline_movement_flag_opcodes read_body counted_flag_change ◌>>=◌ read_packed_guid
    unpack_loop number take_bytes pure encode_modern_movement_flag_change append_packed_guid128
    pack_uint64 le_bytes le_value pack_loop
water_walk_is_translated = refl
