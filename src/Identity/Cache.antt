-- ===== src/Identity/Cache.antt =====
-- The object cache of a session (internal/proxy/server.go): `rememberObjectCreateLocked`, the removal of an
-- object, and the translation of identities in both directions. A Go map is iterated in any order: the
-- order in which the entries are seen is an argument.
pub mod Faithful
use redscarf_proxy.Prelude.{
  ℕ, ◌+◌, ◌%◌, ◌^◌, ◌==◌, ◌&&◌, not, if◌then◌else◌, Bool, true, false, List, [], ◌∷◌, ◌++◌, Option,
  none, some, length, map,
}
use redscarf_proxy.Guid.{Guid128, guid_eq}
use redscarf_proxy.Wire.Bytes.{le_bytes}
use redscarf_proxy.Wire.BitWriter.{new_bit_writer, write_bit, flush}
use redscarf_proxy.Wire.Packed.{append_packed_guid128}
use redscarf_proxy.Wire.Reader.Written.{concat}
use redscarf_proxy.Identity.{modern_guid_for_legacy, legacy_item_guid_from_modern}

pub record ObjectCache : Type 0 where
  pub object_guids : List (ℕ × Guid128)
  pub object_types : ℕ → Option ℕ
  pub object_positions : ℕ → Option (ℕ × ℕ × ℕ)
  pub object_fields : ℕ → Option (List (ℕ × ℕ))
  pub current_character : ℕ
  pub current_map_id : ℕ

unfoldable pub lookup_guid : ℕ → List (ℕ × Guid128) → Option Guid128
lookup_guid guid [] = none
lookup_guid guid ((key, modern) ∷ entries) =
    let rest = lookup_guid guid entries in if key == guid then some modern else rest

unfoldable pub delete_guid : ℕ → List (ℕ × Guid128) → List (ℕ × Guid128)
delete_guid guid [] = []
delete_guid guid ((key, modern) ∷ entries) =
    let rest = delete_guid guid entries in if key == guid then rest else (key, modern) ∷ rest

unfoldable pub at_key {ℓ} : {A : Type ℓ} → ℕ → Option A → (ℕ → Option A) → ℕ → Option A
at_key guid new old key = if key == guid then new else old key

-- The values of a create are its fields, and a position is kept if the create has none.
unfoldable pub remember_object_create :
    ℕ → ℕ → Option (ℕ × ℕ × ℕ) → List (ℕ × ℕ) → ℕ → ObjectCache → ObjectCache
remember_object_create guid object_type position fields map_id c = record c {
  object_guids = (guid, modern_guid_for_legacy guid map_id) ∷ delete_guid guid c.object_guids;
  object_types = at_key guid (some object_type) c.object_types;
  object_positions = elim position [
    | none ↦ c.object_positions
    | some p ↦ at_key guid (some p) c.object_positions
  ];
  object_fields = at_key guid (some fields) c.object_fields;
}

unfoldable pub forget_object : ℕ → ObjectCache → ObjectCache
forget_object guid c = record c {
  object_guids = delete_guid guid c.object_guids;
  object_types = at_key guid none c.object_types;
  object_positions = at_key guid none c.object_positions;
  object_fields = at_key guid none c.object_fields;
}

unfoldable pub modern_guid_in : ObjectCache → ℕ → Guid128
modern_guid_in c guid = elim (lookup_guid guid c.object_guids) [
  | none ↦ modern_guid_for_legacy guid c.current_map_id
  | some modern ↦ modern
]

-- The first entry with this identity.
unfoldable pub find_legacy : Guid128 → List (ℕ × Guid128) → Option ℕ
find_legacy guid [] = none
find_legacy guid ((legacy, modern) ∷ entries) =
    let rest = find_legacy guid entries in if guid_eq modern guid then some legacy else rest

module _ (order : List (ℕ × Guid128) → List (ℕ × Guid128)) where
  unfoldable pub legacy_guid_for_modern : ObjectCache → Guid128 → Option ℕ
  legacy_guid_for_modern c guid =
      if guid.low == 0 && guid.high == 0
      then some 0
      else elim (find_legacy guid (order c.object_guids)) [
        | some legacy ↦ some legacy
        | none ↦
            if not (c.current_character == 0) && guid.low == c.current_character % 2 ^ 32
            then some c.current_character
            else none
      ]

  unfoldable pub legacy_item_for_modern : ObjectCache → Guid128 → ℕ
  legacy_item_for_modern c guid = elim (legacy_guid_for_modern c guid) [
    | some legacy ↦ legacy
    | none ↦ legacy_item_guid_from_modern guid
  ]

unfoldable pub non_empty_guids : List Guid128 → List Guid128
non_empty_guids [] = []
non_empty_guids (guid ∷ guids) =
    let rest = non_empty_guids guids in
    if guid.low == 0 && guid.high == 0 then rest else guid ∷ rest

-- `encodeUpdateObjects` with no object.
unfoldable pub no_update_objects : ℕ → List ℕ
no_update_objects map_id = concat (
    le_bytes 4 0
    ∷ le_bytes 2 map_id
    ∷ (flush (write_bit false (new_bit_writer []))).bytes
    ∷ le_bytes 4 0
    ∷ [])

unfoldable pub removal_bytes : ℕ → List Guid128 → List Guid128 → List ℕ
removal_bytes map_id destroyed out_of_range = concat (
    le_bytes 4 0
    ∷ le_bytes 2 map_id
    ∷ (flush (write_bit true (new_bit_writer []))).bytes
    ∷ le_bytes 2 (length destroyed)
    ∷ le_bytes 4 (length destroyed + length out_of_range)
    ∷ concat (map (append_packed_guid128 []) destroyed)
    ∷ concat (map (append_packed_guid128 []) out_of_range)
    ∷ le_bytes 4 0
    ∷ [])

unfoldable pub encode_object_removals : ℕ → List Guid128 → List Guid128 → List ℕ
encode_object_removals map_id destroyed out_of_range =
    let gone = non_empty_guids destroyed in
    let far = non_empty_guids out_of_range in
    if length gone == 0 && length far == 0
    then no_update_objects map_id
    else removal_bytes map_id gone far

-- SMSG_DESTROY_OBJECT: the body for the client, and the cache.
unfoldable pub destroy_object : ℕ → ObjectCache → List ℕ × ObjectCache
destroy_object guid c =
    (encode_object_removals c.current_map_id (modern_guid_in c guid ∷ []) [], forget_object guid c)
