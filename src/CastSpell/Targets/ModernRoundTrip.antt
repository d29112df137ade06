-- ===== src/CastSpell/Targets/ModernRoundTrip.antt =====
-- `parseSpellTargetData` reads what `appendSpellTargetData` (both internal/modernworld/spell.go) writes.
use redscarf_proxy.Prelude.{
  ℕ, ◌^◌, ◌<◌, ◌≤◌, ◌≡◌, refl, sym, ap, ◌∙◌, arith, Bool, true, false, List, [], ◌∷◌, ◌++◌, Option,
  none, some, All, map, length, ltb, inl, inr, Option-cases, append_assoc,
}
use redscarf_proxy.Wire.Bytes.{le_bytes}
use redscarf_proxy.Wire.BitReader.{Cursor, bits}
use redscarf_proxy.Wire.BitReader.Pack.{digit}
use redscarf_proxy.Wire.BitReader.RoundTrip.{
  Field, IsField, write_fields, read_fields, read_fields-write_fields,
}
use redscarf_proxy.Wire.BitWriter.{BitWriter, new_bit_writer, write_bit, write_bits, flush}
use redscarf_proxy.Wire.Packed.{append_packed_guid128}
use redscarf_proxy.Wire.Packed.RoundTrip.{read_packed_guid128-append_packed_guid128}
use redscarf_proxy.Wire.Reader.{Reader, pure, ◌>>=◌, f32, u32, optional}
use redscarf_proxy.Wire.Reader.Written.{concat}
use redscarf_proxy.Wire.Reader.Determined.{Takes}
use redscarf_proxy.Wire.Reader.Takes.{
  number-Takes, bind-Takes, pure-Takes, packed128-then, take_bytes-then,
}
use redscarf_proxy.Movement.Modern.{floats3_bytes}
use redscarf_proxy.CastSpell.Targets.{
  SpellTargetLocation, SpellCastTargets, bit_fields, aligned, present, spell_target_location,
  spell_target_parts, spell_target_data, has_value, option_bytes, location_bytes, short_name,
  target_bits, append_spell_target_data,
}
use redscarf_proxy.CastSpell.Targets.RoundTrip.{IsPoint, floats3-Takes}

bit_fields-read_fields :
    (fs : List Field) (c : Cursor) → bit_fields (map (λ f. f.count) fs) c ≡ read_fields fs c
unfolding bit_fields read_fields
bit_fields-read_fields [] c = refl
bit_fields-read_fields (f ∷ fs) c = elim (Option-cases (bits f.count c)) [
  | inl e ↦ rw (bit_fields, read_fields, e) refl
  | inr ((value, next), e) ↦ rw (bit_fields, read_fields, e, bit_fields-read_fields fs next) refl
]

-- A group of fields that is written and flushed is read by its widths.
pub aligned-write_fields :
    (fs : List Field)
    → All IsField fs
    → Takes
        (aligned (bit_fields (map (λ f. f.count) fs)))
        (flush (write_fields fs (new_bit_writer []))).bytes
        (map (λ f. f.value) fs)
unfolding aligned
aligned-write_fields fs fit more =
    let (last, reads, stands) = read_fields-write_fields fs more fit in
    rw (aligned, bit_fields-read_fields fs _, reads, stands) refl

write_bit-field : (b : Bool) (w : BitWriter) → write_bits (digit b) 1 w ≡ write_bit b w
unfolding write_bits digit
write_bit-field true w = refl
write_bit-field false w = refl

module _ {A : Type 0} (p : Reader A) (write : A → List ℕ) where
  present-Takes :
      (o : Option A)
      → ((a : A) → o ≡ some a → Takes p (write a) a)
      → Takes (present (digit (has_value o)) p) (option_bytes write o) o
  unfolding present optional has_value option_bytes digit ◌>>=◌ pure
  present-Takes none h more = refl
  present-Takes (some a) h more = ground (arith, h a refl more)

pub record IsLocation (place : SpellTargetLocation) : Type 0 where
  pub low_fits : place.transport.low < 2 ^ 64
  pub high_fits : place.transport.high < 2 ^ 64
  pub point_fits : IsPoint place.location

pub record FitModernTargets (target : SpellCastTargets) : Type 0 where
  pub flags_fit : target.flags < 2 ^ 28
  pub unit_low : target.unit.low < 2 ^ 64
  pub unit_high : target.unit.high < 2 ^ 64
  pub item_low : target.item.low < 2 ^ 64
  pub item_high : target.item.high < 2 ^ 64
  pub src_fits : (place : SpellTargetLocation) → target.src ≡ some place → IsLocation place
  pub dst_fits : (place : SpellTargetLocation) → target.dst ≡ some place → IsLocation place
  pub orientation_fits : (angle : ℕ) → target.orientation ≡ some angle → angle < 2 ^ 32
  pub map_fits : (id : ℕ) → target.map_id ≡ some id → id < 2 ^ 32
  pub name_fits : length target.name ≤ 127

location-Takes :
    (place : SpellTargetLocation)
    → IsLocation place
    → Takes spell_target_location (location_bytes place) place
unfolding spell_target_location location_bytes ◌>>=◌ pure
location-Takes place h more = ground (
  arith,
  append_assoc (append_packed_guid128 [] place.transport) (floats3_bytes place.location) more,
  read_packed_guid128-append_packed_guid128 place.transport (floats3_bytes place.location ++ more)
      h.low_fits h.high_fits,
  floats3-Takes place.location h.point_fits more,
)

short_name-whole : (name : List ℕ) → length name ≤ 127 → short_name name ≡ name
unfolding short_name
short_name-whole name h = let whole : ltb 127 (length name) ≡ false = ground arith in rw whole refl

abbrev target_fields : SpellCastTargets → List Field
target_fields target =
    record { value = target.flags; count = 28 }
    ∷ record { value = digit (has_value target.src); count = 1 }
    ∷ record { value = digit (has_value target.dst); count = 1 }
    ∷ record { value = digit (has_value target.orientation); count = 1 }
    ∷ record { value = digit (has_value target.map_id); count = 1 }
    ∷ record { value = length target.name; count = 7 }
    ∷ []

digit-lt : (b : Bool) → digit b < 2 ^ 1
unfolding digit
digit-lt b = ground arith

abbrev write_flags : Bool → Bool → Bool → Bool → BitWriter → BitWriter
write_flags a b c d w = write_bit d (write_bit c (write_bit b (write_bit a w)))

write_flags-fields :
    (a b c d : Bool) (w : BitWriter)
    → write_bits
        (digit d)
        1
        (write_bits (digit c) 1 (write_bits (digit b) 1 (write_bits (digit a) 1 w)))
      ≡ write_flags a b c d w
write_flags-fields a b c d w =
    rw (write_bit-field a w, write_bit-field b _, write_bit-field c _, write_bit-field d _) refl

target_bits-fields :
    (target : SpellCastTargets)
    → length target.name ≤ 127
    → target_bits target ≡ (flush (write_fields (target_fields target) (new_bit_writer []))).bytes
unfolding target_bits write_fields
target_bits-fields target h =
    let w : BitWriter = write_bits target.flags 28 (new_bit_writer []) in
    sym (
      ap (λ v. (flush (write_bits (length target.name) 7 v)).bytes)
        (write_flags-fields (has_value target.src) (has_value target.dst)
          (has_value target.orientation) (has_value target.map_id) w)
      ∙ ap
          (λ n.
            (flush (
              write_bits (length n) 7 (
                write_flags (has_value target.src) (has_value target.dst)
                  (has_value target.orientation) (has_value target.map_id) w))).bytes)
          (sym (short_name-whole target.name h)))

-- The pieces behind the bits.
parts-Takes :
    (target : SpellCastTargets)
    → FitModernTargets target
    → Takes
        (spell_target_parts (map (λ f. f.value) (target_fields target)))
        (append_packed_guid128 [] target.unit
          ++ (append_packed_guid128 [] target.item
              ++ (option_bytes location_bytes target.src
                  ++ (option_bytes location_bytes target.dst
                      ++ (option_bytes (le_bytes 4) target.orientation
                          ++ (option_bytes (le_bytes 4) target.map_id ++ (target.name ++ [])))))))
        target
unfolding spell_target_parts
parts-Takes target h = packed128-then target.unit _ _ _ h.unit_low h.unit_high (
    packed128-then target.item _ _ _ h.item_low h.item_high (
      bind-Takes _ _ _ _ target.src _
        (present-Takes spell_target_location location_bytes target.src
          λ place e. location-Takes place (h.src_fits place e))
        (bind-Takes _ _ _ _ target.dst _
          (present-Takes spell_target_location location_bytes target.dst
            λ place e. location-Takes place (h.dst_fits place e))
          (bind-Takes _ _ _ _ target.orientation _
            (present-Takes f32 (le_bytes 4) target.orientation
              λ angle e. number-Takes 4 angle (h.orientation_fits angle e))
            (bind-Takes _ _ _ _ target.map_id _
              (present-Takes u32 (le_bytes 4) target.map_id
                λ id e. number-Takes 4 id (h.map_fits id e))
              (take_bytes-then (length target.name) target.name _ _ _ refl (pure-Takes target)))))))

-- Targets that are written for the 3.4.3 client are read as the same targets, whatever follows, if the
-- flags have 28 bits, the name 127 bytes and the other numbers the widths of their types.
pub parse-append_spell_target_data :
    (target : SpellCastTargets) (more : List ℕ)
    → FitModernTargets target
    → spell_target_data (append_spell_target_data target ++ more) ≡ some (target, more)
unfolding spell_target_data append_spell_target_data concat
parse-append_spell_target_data target more h =
    let fields : All IsField (target_fields target) = (
      (h.flags_fit, omega arith),
      (
        (digit-lt _, omega arith),
        (
          (digit-lt _, omega arith),
          (
            (digit-lt _, omega arith),
            ((digit-lt _, omega arith), ((ground (arith, h.name_fits), omega arith), tt)),
          ),
        ),
      ),
    ) in
    rw (target_bits-fields target h.name_fits, short_name-whole target.name h.name_fits)
      (bind-Takes _ spell_target_parts _ _ _ target
        (aligned-write_fields (target_fields target) fields) (parts-Takes target h) more)
