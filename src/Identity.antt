-- ===== src/Identity.antt =====
-- The identities of objects on both sides: `ModernGUIDForLegacy` (internal/modernworld/object_removal.go
-- and active_player.go) and its inverse for items. Masks of the low bits are remainders.
pub mod Distinct
pub mod Cache
use redscarf_proxy.Prelude.{
  ℕ, ◌+◌, ◌-◌, ◌*◌, ◌/◌, ◌%◌, ◌^◌, ◌==◌, ◌||◌, not, bit_or, if◌then◌else◌, Bool, Option, none, some,
}
use redscarf_proxy.Guid.{Guid128, zero_guid}

-- `uint16(guid >> 48)`
abbrev pub high_type : ℕ → ℕ
high_type guid = guid / 2 ^ 48

unfoldable pub modern_player_guid : ℕ → Guid128
modern_player_guid guid = record { low = guid % 2 ^ 32; high = bit_or (2 * 2 ^ 58) (1 * 2 ^ 42) }

abbrev pub modern_item_high : ℕ
modern_item_high = bit_or (3 * 2 ^ 58) (1 * 2 ^ 42)

-- The types of objects that belong to a map.
unfoldable pub modern_type : ℕ → Option ℕ
modern_type high_legacy =
    if high_legacy == 0xf130
    then some 8
    else if high_legacy == 0xf150
    then some 9
    else if high_legacy == 0xf140
    then some 10
    else if high_legacy == 0xf110
    then some 11
    else if high_legacy == 0xf100
    then some 12
    else if high_legacy == 0xf101
    then some 14
    else none

unfoldable pub transport_guid : ℕ → ℕ → Guid128
transport_guid counter entry = record {
  low = 0;
  high = bit_or (bit_or (6 * 2 ^ 58) (counter % 2 ^ 20 * 2 ^ 38)) entry;
}

unfoldable pub map_object_guid : ℕ → ℕ → ℕ → Guid128
map_object_guid type guid entry = record {
  low = guid % 2 ^ 24;
  high = bit_or (bit_or (type * 2 ^ 58) (1 * 2 ^ 42)) (entry % 2 ^ 23 * 2 ^ 6);
}

-- No branch looks at the map.
unfoldable pub modern_legacy_guid : ℕ → ℕ → Guid128
modern_legacy_guid guid map_id =
    let entry : ℕ = guid / 2 ^ 24 % 2 ^ 24 in
    if guid == 0
    then zero_guid
    else if high_type guid == 0
    then modern_player_guid guid
    else if high_type guid == 0x4000 || high_type guid == 0x4700
    then record { low = guid % 2 ^ 32; high = modern_item_high }
    else if high_type guid == 0xf120
    then transport_guid (guid % 2 ^ 24) (if entry == 0 then 2 ^ 32 - 1 else entry)
    else if high_type guid == 0x1fc0
    then record { low = 0; high = bit_or (6 * 2 ^ 58) (guid % 2 ^ 32 % 2 ^ 20 * 2 ^ 38) }
    else elim (modern_type (high_type guid)) [
      | none ↦ zero_guid
      | some type ↦ map_object_guid type guid entry
    ]

unfoldable pub modern_guid_for_legacy : ℕ → ℕ → Guid128
modern_guid_for_legacy guid map_id = modern_legacy_guid guid map_id

unfoldable pub legacy_item_guid_from_modern : Guid128 → ℕ
legacy_item_guid_from_modern guid =
    if guid.low == 0 || not (guid.high == modern_item_high)
    then 0
    else bit_or (0x4000 * 2 ^ 48) (guid.low % 2 ^ 32)
