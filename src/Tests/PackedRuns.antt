-- ===== src/Tests/PackedRuns.antt =====
-- Packed identities of internal/modernworld on concrete inputs.
use redscarf_proxy.Prelude.{◌≡◌, refl, [], ◌∷◌, none}
use redscarf_proxy.Guid.{Guid128}
use redscarf_proxy.Wire.Packed.{
  pack_loop, pack_uint64, append_packed_guid128, unpack_loop, read_packed_guid,
}

abbrev cast_id : Guid128
cast_id = record { low = 0x10002; high = 0xbc00000000000003 }

packed_cast_id : append_packed_guid128 [] cast_id ≡ 0b101 ∷ 0b10000001 ∷ 2 ∷ 1 ∷ 3 ∷ 0xbc ∷ []
unfolding append_packed_guid128 pack_uint64 pack_loop
packed_cast_id = refl

truncated_guid : read_packed_guid (0b101 ∷ 2 ∷ []) ≡ none
unfolding read_packed_guid unpack_loop
truncated_guid = refl
