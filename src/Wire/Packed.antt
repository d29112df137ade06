-- ===== src/Wire/Packed.antt =====
-- Packed identities: a mask byte and the bytes that are not 0. The loops of `packUint64`
-- (internal/modernworld/character_enum.go), `appendLegacyPackedGUID` (player_movement.go),
-- `readPackedGUID128` (character_actions.go), `packedGUID` (update_object.go) and `guid64`
-- (player_movement.go).
pub mod RoundTrip
use redscarf_proxy.Prelude.{
  ℕ, zero, suc, ◌+◌, ◌*◌, ◌/◌, ◌%◌, ◌^◌, ◌==◌, if◌then◌else◌, List, [], ◌∷◌, ◌++◌, Option, none,
  some, bit_and, bit_or,
}
use redscarf_proxy.Guid.{Guid128}

-- `byte(value >> (8 * index))`
abbrev pub byte_at : ℕ → ℕ → ℕ
byte_at index value = value / 2 ^ (8 * index) % 256

-- The rounds that are left, and the loop's variables `index`, `mask` and `packed`.
unfoldable pub pack_loop : ℕ → ℕ → ℕ → ℕ → List ℕ → ℕ × List ℕ
pack_loop zero index value mask packed = (mask, packed)
pack_loop (suc k) index value mask packed =
    let current = byte_at index value in
    pack_loop k (suc index) value (if current == 0 then mask else bit_or mask (2 ^ index))
      (if current == 0 then packed else packed ++ (current ∷ []))

unfoldable pub pack_uint64 : ℕ → ℕ × List ℕ
unfolding pack_loop
pack_uint64 value = pack_loop 8 0 value 0 []

unfoldable pub append_packed_guid128 : List ℕ → Guid128 → List ℕ
append_packed_guid128 destination guid =
    let (low_mask, low_bytes) = pack_uint64 guid.low in
    let (high_mask, high_bytes) = pack_uint64 guid.high in
    destination ++ (low_mask ∷ high_mask ∷ (low_bytes ++ high_bytes))

-- The source writes a placeholder for the mask and sets it after the loop.
unfoldable pub append_legacy_packed_guid : List ℕ → ℕ → List ℕ
append_legacy_packed_guid dst guid =
    let (mask, packed) = pack_loop 8 0 guid 0 [] in dst ++ (mask ∷ packed)

-- Reading: what is left of the body takes the place of `position`; `none` is a truncated body.
unfoldable pub unpack_loop : ℕ → ℕ → ℕ → List ℕ → ℕ → Option (ℕ × List ℕ)
unpack_loop zero index mask body value = some (value, body)
unpack_loop (suc k) index mask body value =
    let rest = λ (bytes : List ℕ) (acc : ℕ). unpack_loop k (suc index) mask bytes acc in
    if bit_and mask (2 ^ index) == 0
    then rest body value
    else (elim body [ [] ↦ none | b ∷ bytes ↦ rest bytes (bit_or value (b * 2 ^ (8 * index))) ])

unfoldable pub read_packed_guid128 : List ℕ → Option (Guid128 × List ℕ)
read_packed_guid128 [] = none
read_packed_guid128 (low_mask ∷ []) = none
read_packed_guid128 (low_mask ∷ high_mask ∷ body) = elim (unpack_loop 8 0 low_mask body 0) [
  | none ↦ none
  | some (low, body') ↦ elim (unpack_loop 8 0 high_mask body' 0) [
    | none ↦ none
    | some (high, rest) ↦ some (record { low = low; high = high }, rest)
  ]
]

unfoldable pub read_packed_guid : List ℕ → Option (ℕ × List ℕ)
read_packed_guid [] = none
read_packed_guid (mask ∷ body) = unpack_loop 8 0 mask body 0
