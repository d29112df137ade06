-- ===== src/CastSpell/Targets.antt =====
-- The targets of a cast in internal/modernworld/spell.go: `parseSpellTargetData` reads the 3.4.3 layout,
-- `appendLegacySpellTargets` writes the 3.3.5 layout and `parseLegacySpellTargets` reads it. A pointer that may
-- be nil is an `Option`, a string the list of its bytes.
pub mod ModernRoundTrip
pub mod RoundTrip
use redscarf_proxy.Prelude.{
  ℕ, zero, suc, ◌==◌, bit_and, bit_or, if◌then◌else◌, Bool, true, false, List, [], ◌∷◌, ◌++◌,
  Option, none, some, length, take, ltb,
}
use redscarf_proxy.Guid.{Guid128, zero_guid}
use redscarf_proxy.Wire.Bytes.{le_bytes}
use redscarf_proxy.Wire.BitReader.{Cursor, BitReader, bits, align}
use redscarf_proxy.Wire.BitWriter.{new_bit_writer, write_bit, write_bits, flush}
use redscarf_proxy.Wire.Packed.{
  append_legacy_packed_guid, append_packed_guid128, read_packed_guid128,
}
use redscarf_proxy.Wire.Reader.{
  Reader, pure, fail, ◌>>=◌, u32, f32, packed_guid, optional, floats3, take_bytes,
}
use redscarf_proxy.Wire.Reader.Written.{concat}
use redscarf_proxy.Update.Movement.{has, Point}
use redscarf_proxy.Movement.Modern.{floats3_bytes}

pub record SpellTargetLocation : Type 0 where
  pub transport : Guid128
  pub location : Point

pub record SpellCastTargets : Type 0 where
  pub flags : ℕ
  pub unit : Guid128
  pub item : Guid128
  pub src : Option SpellTargetLocation
  pub dst : Option SpellTargetLocation
  pub orientation : Option ℕ
  pub map_id : Option ℕ
  pub name : List ℕ

-- `SpellCastTargets{}`
abbrev pub no_targets : SpellCastTargets
no_targets = record {
  flags = 0;
  unit = zero_guid;
  item = zero_guid;
  src = none;
  dst = none;
  orientation = none;
  map_id = none;
  name = [];
}

abbrev pub target_flag_unit_like : ℕ
target_flag_unit_like = 0x00018a02

abbrev pub target_flag_item_like : ℕ
target_flag_item_like = 0x00001010

abbrev pub target_flag_source_loc : ℕ
target_flag_source_loc = 0x00000020

abbrev pub target_flag_dest_loc : ℕ
target_flag_dest_loc = 0x00000040

abbrev pub target_flag_string : ℕ
target_flag_string = 0x00002000

-- Fields of these widths, one after the other.
unfoldable pub bit_fields : List ℕ → BitReader (List ℕ)
bit_fields [] c = some ([], c)
bit_fields (width ∷ widths) c = elim (bits width c) [
  | none ↦ none
  | some (value, next) ↦ elim (bit_fields widths next) [
    | none ↦ none
    | some (values, last) ↦ some (value ∷ values, last)
  ]
]

-- A group of bits at the start of a byte, in front of a read that aligns.
unfoldable pub aligned : {A : Type 0} → BitReader A → Reader A
aligned p bytes = elim (p (record { bytes = bytes; bit_offset = 0 })) [
  | none ↦ none
  | some (a, c) ↦ some (a, (align c).bytes)
]

-- `optional` where the field is a pointer.
unfoldable pub present : {A : Type 0} → ℕ → Reader A → Reader (Option A)
present flag p = optional (flag == 1) (do a ← p; pure (some a)) none

unfoldable pub spell_target_location : Reader SpellTargetLocation
spell_target_location = do
  transport ← read_packed_guid128
  location ← floats3
  pure (record { transport = transport; location = location })

unfoldable pub spell_target_parts : List ℕ → Reader SpellCastTargets
spell_target_parts (flags ∷ has_src ∷ has_dst ∷ has_orientation ∷ has_map ∷ name_length ∷ []) = do
  unit ← read_packed_guid128
  item ← read_packed_guid128
  src ← present has_src spell_target_location
  dst ← present has_dst spell_target_location
  orientation ← present has_orientation f32
  map_id ← present has_map u32
  name ← take_bytes name_length
  pure (record {
    flags = flags;
    unit = unit;
    item = item;
    src = src;
    dst = dst;
    orientation = orientation;
    map_id = map_id;
    name = name;
  })
spell_target_parts fields = fail

unfoldable pub spell_target_data : Reader SpellCastTargets
spell_target_data = do
  fields ← aligned (bit_fields (28 ∷ 1 ∷ 1 ∷ 1 ∷ 1 ∷ 7 ∷ []))
  spell_target_parts fields

unfoldable pub has_value : {A : Type 0} → Option A → Bool
has_value none = false
has_value (some a) = true

unfoldable pub option_bytes : {A : Type 0} → (A → List ℕ) → Option A → List ℕ
option_bytes write none = []
option_bytes write (some a) = write a

unfoldable pub location_bytes : SpellTargetLocation → List ℕ
location_bytes place = append_packed_guid128 [] place.transport ++ floats3_bytes place.location

unfoldable pub short_name : List ℕ → List ℕ
short_name name = if ltb 127 (length name) then take 127 name else name

unfoldable pub target_bits : SpellCastTargets → List ℕ
target_bits target =
    (flush (
      write_bits (length (short_name target.name)) 7 (
        write_bit (has_value target.map_id) (
          write_bit (has_value target.orientation) (
            write_bit (has_value target.dst) (
              write_bit (has_value target.src)
                (write_bits target.flags 28 (new_bit_writer [])))))))).bytes

-- `appendSpellTargetData`: the layout of the 3.4.3 client.
unfoldable pub append_spell_target_data : SpellCastTargets → List ℕ
append_spell_target_data target = concat (
    target_bits target
    ∷ append_packed_guid128 [] target.unit
    ∷ append_packed_guid128 [] target.item
    ∷ option_bytes location_bytes target.src
    ∷ option_bytes location_bytes target.dst
    ∷ option_bytes (le_bytes 4) target.orientation
    ∷ option_bytes (le_bytes 4) target.map_id
    ∷ short_name target.name
    ∷ [])

unfoldable pub location_or_zero : Option SpellTargetLocation → Point
location_or_zero none = (0, 0, 0)
location_or_zero (some place) = place.location

abbrev pub legacy_target_flags : SpellCastTargets → ℕ
legacy_target_flags target = bit_and target.flags 0x001fffff

unfoldable pub append_legacy_spell_targets : SpellCastTargets → ℕ → ℕ → ℕ → ℕ → List ℕ
append_legacy_spell_targets target unit item src_transport dst_transport =
    let flags = legacy_target_flags target in
    concat (
      le_bytes 4 flags
      ∷ (if has flags target_flag_unit_like then append_legacy_packed_guid [] unit else [])
      ∷ (if has flags target_flag_item_like then append_legacy_packed_guid [] item else [])
      ∷ (if has flags target_flag_source_loc
          then append_legacy_packed_guid [] src_transport
            ++ floats3_bytes (location_or_zero target.src)
          else [])
      ∷ (if has flags target_flag_dest_loc
          then append_legacy_packed_guid [] dst_transport
            ++ floats3_bytes (location_or_zero target.dst)
          else [])
      ∷ (if has flags target_flag_string then target.name ++ (0 ∷ []) else [])
      ∷ [])

-- `cstring` of `movementReader`.
unfoldable pub cstring : Reader (List ℕ)
cstring [] = none
cstring (b ∷ bs) =
    let rest = cstring bs in
    if b == 0
    then some ([], bs)
    else elim rest [ none ↦ none | some (name, more) ↦ some (b ∷ name, more) ]

unfoldable pub legacy_guid : Reader Guid128
legacy_guid = do guid ← packed_guid; pure (record { low = guid; high = 0 })

unfoldable pub legacy_spell_location : Reader SpellTargetLocation
legacy_spell_location = do
  transport ← legacy_guid
  location ← floats3
  pure (record { transport = transport; location = location })

unfoldable pub some_location : Reader (Option SpellTargetLocation)
some_location = do place ← legacy_spell_location; pure (some place)

unfoldable pub legacy_spell_targets : Reader SpellCastTargets
legacy_spell_targets = do
  flags ← u32
  unit ← optional (has flags target_flag_unit_like) legacy_guid zero_guid
  item ← optional (has flags target_flag_item_like) legacy_guid zero_guid
  src ← optional (has flags target_flag_source_loc) some_location none
  dst ← optional (has flags target_flag_dest_loc) some_location none
  name ← optional (has flags target_flag_string) cstring []
  pure (record {
    flags = flags;
    unit = unit;
    item = item;
    src = src;
    dst = dst;
    orientation = none;
    map_id = none;
    name = name;
  })
