-- ===== src/Wire/Batch.antt =====
-- `MergeUpdateObjectBodies` of internal/modernworld/update_object_batch.go, with `encodeUpdateObjects`
-- (active_player.go) and `EncodeEmptyUpdateObject` (world_entry.go). The removal bit and its padding
-- are one byte 0.
pub mod Merge
use redscarf_proxy.Prelude.{
  ℕ, zero, suc, ◌+◌, ◌-◌, ◌^◌, leb, ltb, ◌==◌, ◌&&◌, not, if◌then◌else◌, Bool, true, false, List,
  [], ◌∷◌, ◌++◌, Option, none, some, length, take, drop, get_elem?, bit_and,
}
use redscarf_proxy.Wire.Bytes.{le_bytes, le_value}

unfoldable pub join : List (List ℕ) → List ℕ
join [] = []
join (object ∷ objects) = object ++ join objects

unfoldable pub total_size : List (List ℕ) → ℕ
total_size [] = 0
total_size (object ∷ objects) = length object + total_size objects

-- A uint32 and a uint16 field keep the lowest bytes of a number.
unfoldable pub encode_update_objects : ℕ → List (List ℕ) → List ℕ
encode_update_objects map_id objects =
    le_bytes 4 (length objects)
    ++ (le_bytes 2 map_id ++ (0 ∷ (le_bytes 4 (total_size objects) ++ join objects)))

unfoldable pub encode_empty_update_object : ℕ → List ℕ
encode_empty_update_object map_id = le_bytes 4 0 ++ (le_bytes 2 map_id ++ (0 ∷ le_bytes 4 0))

-- `body[6]`, of a body that is long enough.
abbrev byte_or_zero : Option ℕ → ℕ
byte_or_zero none = 0
byte_or_zero (some b) = b

-- The tests on one body, in the order of the source; a body that passes gives its object data.
unfoldable pub single_object : ℕ → List ℕ → Option (List ℕ)
single_object map_id body =
    if leb 11 (length body)
      && le_value (take 4 body) == 1
      && le_value (take 2 (drop 4 body)) == map_id
      && bit_and (byte_or_zero (get_elem? body 6)) 0x80 == 0
      && le_value (take 4 (drop 7 body)) == length body - 11
    then some (drop 11 body)
    else none

abbrev pub with_object : Option (List ℕ) → Option (List (List ℕ)) → Option (List (List ℕ))
with_object (some object) (some objects) = some (object ∷ objects)
with_object _ _ = none

unfoldable pub single_objects : ℕ → List (List ℕ) → Option (List (List ℕ))
single_objects map_id [] = some []
single_objects map_id (body ∷ bodies) =
    with_object (single_object map_id body) (single_objects map_id bodies)

abbrev pub merged : ℕ → Option (List (List ℕ)) → Option (List ℕ)
merged map_id none = none
merged map_id (some objects) =
    if leb (total_size objects) 0xffffffff
    then some (encode_update_objects map_id objects)
    else none

unfoldable pub merge_update_object_bodies : ℕ → List (List ℕ) → Option (List ℕ)
merge_update_object_bodies map_id [] = some (encode_empty_update_object map_id)
merge_update_object_bodies map_id (body ∷ bodies) =
    merged map_id (single_objects map_id (body ∷ bodies))
