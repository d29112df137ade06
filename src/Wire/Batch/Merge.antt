-- ===== src/Wire/Batch/Merge.antt =====
-- `MergeUpdateObjectBodies` of internal/modernworld/update_object_batch.go on single-object bodies.
use redscarf_proxy.Prelude.{
  ℕ, ◌+◌, ◌^◌, ◌<◌, ◌≡◌, refl, arith, leb, true, List, [], ◌∷◌, append-nil, some, length,
}
use redscarf_proxy.Wire.Bytes.{le_bytes, le_value, le_value-le_bytes}
use redscarf_proxy.Wire.Batch.{
  join, total_size, encode_update_objects, encode_empty_update_object, single_object,
  single_objects, merge_update_object_bodies,
}

-- The bodies of single objects.
unfoldable pub single_bodies : ℕ → List (List ℕ) → List (List ℕ)
single_bodies map_id [] = []
single_bodies map_id (object ∷ objects) =
    encode_update_objects map_id (object ∷ []) ∷ single_bodies map_id objects

single_object-encode_update_objects :
    (map_id : ℕ) (object : List ℕ)
    → map_id < 2 ^ 16
    → length object < 2 ^ 32
    → single_object map_id (encode_update_objects map_id (object ∷ [])) ≡ some object
unfolding single_object encode_update_objects join total_size le_bytes
single_object-encode_update_objects map_id object hm ho =
    let size : length object + 0 ≡ length object = omega arith in
    let count : le_value (le_bytes 2 map_id) ≡ map_id = le_value-le_bytes 2 map_id hm in
    let whole : le_value (le_bytes 4 (length object)) ≡ length object =
      le_value-le_bytes 4 (length object) ho in
    let one : le_value (1 ∷ 0 ∷ 0 ∷ 0 ∷ []) ≡ 1 = le_value-le_bytes 4 1 (omega arith) in
    rw (size, append-nil object) (ground (arith, one, count, whole))

single_objects-single_bodies :
    (map_id : ℕ) (objects : List (List ℕ))
    → map_id < 2 ^ 16
    → total_size objects < 2 ^ 32
    → single_objects map_id (single_bodies map_id objects) ≡ some objects
unfolding single_objects single_bodies total_size
single_objects-single_bodies map_id [] hm ho = refl
single_objects-single_bodies map_id (object ∷ objects) hm ho = rw (
  single_object-encode_update_objects map_id object hm (omega arith),
  single_objects-single_bodies map_id objects hm (omega arith),
)

-- The bodies of single objects on one map are merged into the body of all of them, in their order,
-- if their sizes together fit into 32 bits. No body gives the empty update.
pub merge_update_object_bodies-single_bodies :
    (map_id : ℕ) (objects : List (List ℕ))
    → map_id < 2 ^ 16
    → total_size objects < 2 ^ 32
    → merge_update_object_bodies map_id (single_bodies map_id objects)
      ≡ some (encode_update_objects map_id objects)
unfolding merge_update_object_bodies single_bodies le_bytes
merge_update_object_bodies-single_bodies map_id [] hm ho =
    unfold encode_update_objects encode_empty_update_object join total_size in refl
merge_update_object_bodies-single_bodies map_id (object ∷ objects) hm ho =
    let few : leb (total_size (object ∷ objects)) 0xffffffff ≡ true = ground arith in
    rw (single_objects-single_bodies map_id (object ∷ objects) hm ho, few)
