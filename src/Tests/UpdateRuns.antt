-- ===== src/Tests/UpdateRuns.antt =====
-- Update objects of internal/modernworld on concrete bodies.
use redscarf_proxy.Prelude.{ℕ, ◌*◌, ◌≡◌, refl, arith, List, [], ◌∷◌, ◌++◌, none, some}
use redscarf_proxy.Wire.Bytes.{le_bytes, le_value}
use redscarf_proxy.Wire.Packed.{read_packed_guid, unpack_loop}
use redscarf_proxy.Wire.Reader.{pure, fail, ◌>>=◌, take_bytes, number, guard, replicate}
use redscarf_proxy.Wire.Reader.Determined.{Takes}
use redscarf_proxy.Wire.Reader.Written.{concat}
use redscarf_proxy.Update.Movement.{has}
use redscarf_proxy.Update.Objects.{
  ObjectUpdate, update_values, guid_objects, word_fields, mask_fields, values, guid_list,
  update_of_type, object_update, update_batch, parse_legacy_update_object,
}
use redscarf_proxy.Wire.Reader.Takes.{number-byte, number-le_bytes}
use redscarf_proxy.Update.Framing.{
  FramedAs, parse_legacy_update_object-Written, parse_legacy_update_object-FramedAs,
}
use redscarf_proxy.Update.Values.{word_bits, mask_bits, entries, write_values, values-write_values}

-- An object that is out of range, and one field of another object.
abbrev far_object : List ℕ
far_object = 4 ∷ 1 ∷ 0 ∷ 0 ∷ 0 ∷ 0b1 ∷ 7 ∷ []

abbrev changed_field : List ℕ
changed_field = 0 ∷ 0b10 ∷ 9 ∷ 1 ∷ 0b100 ∷ 0 ∷ 0 ∷ 0 ∷ 44 ∷ 1 ∷ 0 ∷ 0 ∷ []

abbrev far_update : ObjectUpdate
far_update = guid_objects 4 (7 ∷ [])

abbrev field_update : ObjectUpdate
field_update = update_values (9 * 256) (record { mask_words = 4 ∷ []; fields = (2, 300) ∷ [] })

two_updates_read :
    parse_legacy_update_object (2 ∷ 0 ∷ 0 ∷ 0 ∷ (far_object ++ changed_field))
    ≡ some (far_update ∷ field_update ∷ [])
unfolding parse_legacy_update_object update_batch object_update update_of_type guid_list values
    mask_fields word_fields has number take_bytes le_value read_packed_guid unpack_loop guard
    replicate ◌>>=◌ pure fail
two_updates_read = refl

-- A byte behind the updates is an error.
trailing_byte : parse_legacy_update_object (0 ∷ 0 ∷ 0 ∷ 0 ∷ 1 ∷ []) ≡ none
unfolding parse_legacy_update_object update_batch number take_bytes le_value guard replicate ◌>>=◌
    pure
trailing_byte = refl

far_object_read : object_update far_object ≡ some (far_update, [])
unfolding object_update update_of_type guid_list number take_bytes le_value read_packed_guid
    unpack_loop guard replicate ◌>>=◌ pure fail
far_object_read = refl

parse_legacy_update_object-FramedAs_example :
    FramedAs (2 ∷ 0 ∷ 0 ∷ 0 ∷ (far_object ++ changed_field)) (far_update ∷ field_update ∷ [])
parse_legacy_update_object-FramedAs_example =
    parse_legacy_update_object-FramedAs (2 ∷ 0 ∷ 0 ∷ 0 ∷ (far_object ++ changed_field))
      (far_update ∷ field_update ∷ []) two_updates_read

far_object-Takes : Takes object_update far_object far_update
unfolding object_update update_of_type guid_list le_bytes read_packed_guid unpack_loop guard
    replicate ◌>>=◌ pure
far_object-Takes more = ground (
  arith,
  number-byte 4 (1 ∷ 0 ∷ 0 ∷ 0 ∷ 0b1 ∷ 7 ∷ more),
  number-le_bytes 4 1 (0b1 ∷ 7 ∷ more) (omega arith),
)

parse_legacy_update_object-Written_example :
    parse_legacy_update_object (le_bytes 4 1 ++ concat (far_object ∷ [])) ≡ some (far_update ∷ [])
unfolding concat
parse_legacy_update_object-Written_example =
    parse_legacy_update_object-Written (far_object ∷ []) (far_update ∷ []) (far_object-Takes, tt)
      (omega arith) (omega arith)

values-write_values_example :
    values (write_values (λ i. 300) (4 ∷ 1 ∷ []) ++ (6 ∷ []))
    ≡ some (record { mask_words = 4 ∷ 1 ∷ []; fields = (2, 300) ∷ (32, 300) ∷ [] }, 6 ∷ [])
unfolding mask_bits word_bits has entries
values-write_values_example =
    values-write_values (λ i. 300) (4 ∷ 1 ∷ []) (6 ∷ []) (λ i. omega arith)
      (omega arith, (omega arith, tt))
