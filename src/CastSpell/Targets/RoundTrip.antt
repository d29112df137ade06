-- ===== src/CastSpell/Targets/RoundTrip.antt =====
-- `parseLegacySpellTargets` reads what `appendLegacySpellTargets` (both internal/modernworld/spell.go) writes.
use redscarf_proxy.Prelude.{
  ℕ, ◌^◌, ◌<◌, ◌≡◌, ◌≢◌, refl, arith, if◌then◌else◌, List, [], ◌∷◌, ◌++◌, none, some, All,
  append_assoc, bit_and, Option, shares,
}
use redscarf_proxy.Prelude.Bits.{bit_and-lt}
use redscarf_proxy.Guid.{zero_guid}
use redscarf_proxy.Wire.Packed.{append_legacy_packed_guid}
use redscarf_proxy.Wire.Packed.RoundTrip.{read_packed_guid-append_legacy_packed_guid}
use redscarf_proxy.Wire.Reader.{pure, ◌>>=◌, floats3}
use redscarf_proxy.Wire.Reader.Written.{concat}
use redscarf_proxy.Wire.Reader.Determined.{Takes}
use redscarf_proxy.Wire.Reader.Takes.{taken, number-then, optional-then, pure-Takes}
use redscarf_proxy.Update.Movement.{has, Point}
use redscarf_proxy.Movement.Modern.{floats3_bytes}
use redscarf_proxy.CastSpell.Targets.{
  SpellCastTargets, SpellTargetLocation, target_flag_unit_like, target_flag_item_like,
  target_flag_source_loc, target_flag_dest_loc, target_flag_string, location_or_zero,
  legacy_target_flags, append_legacy_spell_targets, cstring, legacy_guid, legacy_spell_location,
  some_location, legacy_spell_targets,
}

pub record IsPoint (p : Point) : Type 0 where
  pub x_fits : p.0 < 2 ^ 32
  pub y_fits : p.1 < 2 ^ 32
  pub z_fits : p.2 < 2 ^ 32

pub floats3-Takes : (p : Point) → IsPoint p → Takes floats3 (floats3_bytes p) p
unfolding floats3 floats3_bytes concat
floats3-Takes p h = search (taken, h.x_fits, h.y_fits, h.z_fits) depth 40

legacy_guid-Takes :
    (guid : ℕ)
    → guid < 2 ^ 64
    → Takes legacy_guid (append_legacy_packed_guid [] guid) (record { low = guid; high = 0 })
unfolding legacy_guid ◌>>=◌ pure
legacy_guid-Takes guid h more =
    ground (arith, read_packed_guid-append_legacy_packed_guid guid more h)

cstring-Takes : (name : List ℕ) → All (λ b. b ≢ 0) name → Takes cstring (name ++ (0 ∷ [])) name
unfolding cstring
cstring-Takes [] all more = refl
cstring-Takes (b ∷ bs) all more = ground (arith, cstring-Takes bs all.1 more, all.0)

some_location-Takes :
    (transport : ℕ) (place : Point)
    → transport < 2 ^ 64
    → IsPoint place
    → Takes some_location
        (append_legacy_packed_guid [] transport ++ floats3_bytes place)
        (some (record { transport = record { low = transport; high = 0 }; location = place }))
unfolding some_location legacy_spell_location ◌>>=◌ pure
some_location-Takes transport place h k more = ground (
  arith,
  append_assoc (append_legacy_packed_guid [] transport) (floats3_bytes place) more,
  legacy_guid-Takes transport h (floats3_bytes place ++ more),
  floats3-Takes place k more,
)

-- The place of the targets; a missing one is the origin.
unfoldable pub place_of : Option SpellTargetLocation → Point
place_of none = (0, 0, 0)
place_of (some place) = place.location

location_or_zero_lem : (o : Option SpellTargetLocation) → location_or_zero o ≡ place_of o
unfolding location_or_zero place_of
location_or_zero_lem none = refl
location_or_zero_lem (some place) = refl

-- What the 3.3.5 server sees of the targets, with the flags of its protocol: a unit or object, an item,
-- a source, a destination and a name.
unfoldable pub seen_targets : SpellCastTargets → ℕ → ℕ → ℕ → ℕ → SpellCastTargets
seen_targets target unit item src_transport dst_transport = record {
  flags = bit_and target.flags 0x001fffff;
  unit =
      if shares (bit_and target.flags 0x001fffff) 0x18a02
      then record { low = unit; high = 0 }
      else record { low = 0; high = 0 };
  item =
      if shares (bit_and target.flags 0x001fffff) 0x1010
      then record { low = item; high = 0 }
      else record { low = 0; high = 0 };
  src =
      if shares (bit_and target.flags 0x001fffff) 0x20
      then some (record {
        transport = record { low = src_transport; high = 0 };
        location = place_of target.src;
      })
      else none;
  dst =
      if shares (bit_and target.flags 0x001fffff) 0x40
      then some (record {
        transport = record { low = dst_transport; high = 0 };
        location = place_of target.dst;
      })
      else none;
  orientation = none;
  map_id = none;
  name = if shares (bit_and target.flags 0x001fffff) 0x2000 then target.name else [];
}

pub record FitTargets (target : SpellCastTargets) : Type 0 where
  pub flags_fit : target.flags < 2 ^ 32
  pub src_fits : IsPoint (place_of target.src)
  pub dst_fits : IsPoint (place_of target.dst)
  pub plain_name : All (λ b. b ≢ 0) target.name

-- The targets that are written for the 3.3.5 server are read as these targets, whatever follows: the
-- flags that it knows, and where they ask for it the unit, the item, the places and the name.
pub parse-append_legacy_spell_targets :
    (target : SpellCastTargets) (unit item src_transport dst_transport : ℕ) (more : List ℕ)
    → FitTargets target
    → unit < 2 ^ 64
    → item < 2 ^ 64
    → src_transport < 2 ^ 64
    → dst_transport < 2 ^ 64
    → legacy_spell_targets
        (append_legacy_spell_targets target unit item src_transport dst_transport ++ more)
      ≡ some (seen_targets target unit item src_transport dst_transport, more)
unfolding legacy_spell_targets append_legacy_spell_targets concat seen_targets has
parse-append_legacy_spell_targets target unit item src_transport dst_transport more fits u i s d =
    let flags : ℕ = legacy_target_flags target in
    let small : flags < 2 ^ 32 = bit_and-lt 32 target.flags 0x001fffff fits.flags_fit in
    rw (location_or_zero_lem target.src, location_or_zero_lem target.dst)
      (number-then 4 flags _ _ _ small
        (optional-then (has flags target_flag_unit_like) legacy_guid _ _ zero_guid _ _ _
          (legacy_guid-Takes unit u)
          (optional-then (has flags target_flag_item_like) legacy_guid _ _ zero_guid _ _ _
            (legacy_guid-Takes item i)
            (optional-then (has flags target_flag_source_loc) some_location _ _ none _ _ _
              (some_location-Takes src_transport _ s fits.src_fits)
              (optional-then (has flags target_flag_dest_loc) some_location _ _ none _ _ _
                (some_location-Takes dst_transport _ d fits.dst_fits)
                (optional-then (has flags target_flag_string) cstring _ _ [] _ _ _
                  (cstring-Takes target.name fits.plain_name) (pure-Takes _))))))
        more)
