-- ===== src/Update/Objects.antt =====
-- `values`, `guidList`, `objectUpdate` and `ParseLegacyUpdateObject` of
-- internal/modernworld/update_object.go.
use redscarf_proxy.Prelude.{
  ℕ, zero, suc, ◌+◌, ◌*◌, ◌^◌, leb, ◌==◌, ◌||◌, not, ◌&&◌, if◌then◌else◌, List, [], ◌∷◌, ◌++◌,
  Option, none, some, length,
}
use redscarf_proxy.Wire.Reader.{Reader, pure, fail, ◌>>=◌, u8, u32, packed_guid, guard, replicate}
use redscarf_proxy.Update.Movement.{has, Movement}
use redscarf_proxy.Update.Living.{movement}

abbrev pub max_update_object_body : ℕ
max_update_object_body = 16 * 2 ^ 20

abbrev pub max_object_updates : ℕ
max_object_updates = 2 ^ 16

abbrev pub max_object_list : ℕ
max_object_list = 2 ^ 20

-- The map of fields as the list of its entries, in the order in which they are read.
pub record ValuesBlock : Type 0 where
  pub mask_words : List ℕ
  pub fields : List (ℕ × ℕ)

-- `LegacyObjectUpdate` by its types: each carries the fields that its type reads. The program keeps
-- the two kinds of creation and the two GUID lists apart by `Type`, which is the first number here.
pub data ObjectUpdate : Type 0 where
  update_values : ℕ → ValuesBlock → ObjectUpdate
  update_movement : ℕ → Movement → ObjectUpdate
  create_object : ℕ → ℕ → ℕ → Movement → ValuesBlock → ObjectUpdate
  guid_objects : ℕ → List ℕ → ObjectUpdate

-- The loop over the bits of one mask word: `n` bits are left, the first of them is `bit`.
unfoldable pub word_fields : ℕ → ℕ → ℕ → ℕ → Reader (List (ℕ × ℕ))
word_fields zero bit word base = pure []
word_fields (suc n) bit word base =
    if has word (2 ^ bit)
    then (do
      value ← u32
      rest ← word_fields n (suc bit) word base
      pure ((base + bit, value) ∷ rest))
    else word_fields n (suc bit) word base

-- The loop over the mask words.
unfoldable pub mask_fields : ℕ → List ℕ → Reader (List (ℕ × ℕ))
mask_fields index [] = pure []
mask_fields index (word ∷ words) = do
  fields ← word_fields 32 0 word (index * 32)
  rest ← mask_fields (suc index) words
  pure (fields ++ rest)

unfoldable pub values : Reader ValuesBlock
values = do
  size ← u8
  words ← replicate size u32
  fields ← mask_fields 0 words
  pure (record { mask_words = words; fields = fields })

-- The count is an int32: a negative one is a bit pattern of 2 ^ 31 or more.
unfoldable pub guid_list : Reader (List ℕ)
guid_list = do
  count ← u32
  guard (not (leb (2 ^ 31) count) && leb count max_object_list) (replicate count packed_guid)

unfoldable pub create_update : ℕ → Reader ObjectUpdate
create_update type = do
  guid ← packed_guid
  object_type ← u8
  move ← guard (leb object_type 7) movement
  block ← values
  pure (create_object type guid object_type move block)

unfoldable pub update_of_type : ℕ → Reader ObjectUpdate
update_of_type type =
    if type == 0
    then (do guid ← packed_guid; block ← values; pure (update_values guid block))
    else (if type == 1
        then (do guid ← packed_guid; move ← movement; pure (update_movement guid move))
        else (if type == 2 || type == 3
            then create_update type
            else (if type == 4 || type == 5
                then (do guids ← guid_list; pure (guid_objects type guids))
                else fail)))

unfoldable pub object_update : Reader ObjectUpdate
object_update = do type ← u8; update_of_type type

-- The count, the updates and what is left behind them.
unfoldable pub update_batch : Reader (List ObjectUpdate)
update_batch = do count ← u32; guard (leb count max_object_updates) (replicate count object_update)

-- `r.remaining() != 0` is an error.
abbrev pub whole {ℓ} : {A : Type ℓ} → Option (A × List ℕ) → Option A
whole none = none
whole (some (a, [])) = some a
whole (some (a, b ∷ bs)) = none

unfoldable pub parse_legacy_update_object : List ℕ → Option (List ObjectUpdate)
parse_legacy_update_object body =
    if leb (length body) max_update_object_body then whole (update_batch body) else none

abbrev pub smsg_update_object : ℕ
smsg_update_object = 0x00a9

abbrev pub smsg_compressed_update_object : ℕ
smsg_compressed_update_object = 0x01f6

-- zlib, a package of Go's library: what the reader behind the size prefix yields, up to a limit.
module _ (inflate : ℕ → List ℕ → Option (List ℕ)) where
  unfoldable pub inflated : ℕ → Option (List ℕ) → Option (List ℕ)
  inflated expected none = none
  inflated expected (some bytes) =
      if leb (length bytes) max_update_object_body && length bytes == expected
      then some bytes
      else none

  abbrev pub inflate_from : Option (ℕ × List ℕ) → Option (List ℕ)
  inflate_from none = none
  inflate_from (some (expected, packed)) =
      if leb expected max_update_object_body
      then inflated expected (inflate (max_update_object_body + 1) packed)
      else none

  unfoldable pub inflate_legacy_update_object : List ℕ → Option (List ℕ)
  inflate_legacy_update_object body = inflate_from (u32 body)

  abbrev pub parse_inflated : Option (List ℕ) → Option (List ObjectUpdate)
  parse_inflated none = none
  parse_inflated (some body) = parse_legacy_update_object body

  unfoldable pub decode_legacy_update_object : ℕ → List ℕ → Option (List ObjectUpdate)
  decode_legacy_update_object opcode body =
      if opcode == smsg_update_object
      then parse_legacy_update_object body
      else (if opcode == smsg_compressed_update_object
          then parse_inflated (inflate_legacy_update_object body)
          else none)
