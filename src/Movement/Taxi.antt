-- ===== src/Movement/Taxi.antt =====
-- The packets of internal/modernworld/taxi.go. An error of a parser is `none`.
use redscarf_proxy.Prelude.{
  ℕ, zero, suc, ◌==◌, ltb, not, if◌then◌else◌, Bool, true, false, List, [], ◌∷◌, ◌++◌, map, Option,
  some, length, take,
}
use redscarf_proxy.Guid.{Guid128, zero_guid}
use redscarf_proxy.Wire.Bytes.{le_bytes}
use redscarf_proxy.Wire.BitWriter.{new_bit_writer, write_bit, write_bits, flush}
use redscarf_proxy.Wire.Packed.{append_packed_guid128, read_packed_guid128}
use redscarf_proxy.Wire.Reader.{Reader, pure, ◌>>=◌, u8, u32, u64, guard}
use redscarf_proxy.Wire.Reader.Written.{concat}
use redscarf_proxy.Movement.{read_body}

abbrev modern_taxi_mask_bytes : ℕ
modern_taxi_mask_bytes = 56

pub record ActivateTaxiRequest : Type 0 where
  pub flight_master : Guid128
  pub destination : ℕ
  pub ground_mount_id : ℕ
  pub flying_mount_id : ℕ

-- `ParsePackedGUID128Exact` of internal/modernworld/combat.go: an empty body is the zero identity.
unfoldable pub parse_packed_guid128_exact : List ℕ → Option Guid128
parse_packed_guid128_exact [] = some zero_guid
parse_packed_guid128_exact (b ∷ bs) = read_body read_packed_guid128 (b ∷ bs)

unfoldable pub parse_taxi_npc : List ℕ → Option Guid128
parse_taxi_npc = parse_packed_guid128_exact

unfoldable pub parse_activate_taxi : List ℕ → Option ActivateTaxiRequest
parse_activate_taxi = read_body (do
  flight_master ← read_packed_guid128
  destination ← u32
  ground_mount_id ← u32
  flying_mount_id ← u32
  pure (record {
    flight_master = flight_master;
    destination = destination;
    ground_mount_id = ground_mount_id;
    flying_mount_id = flying_mount_id;
  }))

unfoldable pub encode_legacy_taxi_npc : ℕ → List ℕ
encode_legacy_taxi_npc guid = le_bytes 8 guid

unfoldable pub encode_legacy_activate_taxi : ℕ → ℕ → ℕ → List ℕ
encode_legacy_activate_taxi guid source destination =
    le_bytes 8 guid ++ (le_bytes 4 source ++ le_bytes 4 destination)

unfoldable pub encode_legacy_activate_taxi_express : ℕ → List ℕ → List ℕ
encode_legacy_activate_taxi_express guid route =
    le_bytes 8 guid ++ (le_bytes 4 (length route) ++ concat (map (le_bytes 4) route))

pub record LegacyTaxiMenu : Type 0 where
  pub has_window_info : Bool
  pub flight_master : ℕ
  pub current_node : ℕ
  pub node_mask : List ℕ

-- All the bytes that are left.
unfoldable pub remaining_bytes : Reader (List ℕ)
remaining_bytes bytes = some (bytes, [])

unfoldable pub taxi_menu : Reader LegacyTaxiMenu
taxi_menu = do
  window ← u32
  if window == 0
      then (do
        node_mask ← remaining_bytes
        pure (record {
          has_window_info = false;
          flight_master = 0;
          current_node = 0;
          node_mask = node_mask;
        }))
      else (do
        flight_master ← u64
        current_node ← u32
        node_mask ← remaining_bytes
        pure (record {
          has_window_info = true;
          flight_master = flight_master;
          current_node = current_node;
          node_mask = node_mask;
        }))

unfoldable pub parse_legacy_taxi_menu : List ℕ → Option LegacyTaxiMenu
parse_legacy_taxi_menu = read_body taxi_menu

unfoldable pub zeros : ℕ → List ℕ
zeros zero = []
zeros (suc n) = 0 ∷ zeros n

-- `copy` into a mask of zeros.
unfoldable pub modern_mask : List ℕ → List ℕ
modern_mask mask = take modern_taxi_mask_bytes (mask ++ zeros modern_taxi_mask_bytes)

-- The mask has 56 / 8 = 7 words, and is sent twice.
unfoldable pub encode_show_taxi_nodes : LegacyTaxiMenu → Guid128 → List ℕ
encode_show_taxi_nodes menu flight_master = concat (
    (flush (write_bit menu.has_window_info (new_bit_writer []))).bytes
    ∷ le_bytes 4 7
    ∷ le_bytes 4 7
    ∷ (if menu.has_window_info
        then append_packed_guid128 [] flight_master ++ le_bytes 4 menu.current_node
        else [])
    ∷ modern_mask menu.node_mask
    ∷ modern_mask menu.node_mask
    ∷ [])

unfoldable pub parse_legacy_taxi_node_status : List ℕ → Option (ℕ × Bool)
parse_legacy_taxi_node_status =
    read_body
      (do guid ← u64; learned ← u8; guard (not (ltb 1 learned)) (pure (guid, not (learned == 0))))

unfoldable pub encode_taxi_node_status : Guid128 → Bool → List ℕ
encode_taxi_node_status flight_master learned =
    (flush (
      write_bits (if learned then 1 else 2) 2
        (new_bit_writer (append_packed_guid128 [] flight_master)))).bytes

unfoldable pub parse_legacy_activate_taxi_reply : List ℕ → Option ℕ
parse_legacy_activate_taxi_reply =
    read_body (do reply ← u32; guard (not (ltb 12 reply)) (pure reply))

unfoldable pub encode_activate_taxi_reply : ℕ → List ℕ
encode_activate_taxi_reply reply = (flush (write_bits reply 4 (new_bit_writer []))).bytes
