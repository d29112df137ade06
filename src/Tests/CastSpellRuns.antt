-- ===== src/Tests/CastSpellRuns.antt =====
-- Runs of the requests to cast of internal/modernworld/spell.go.
use redscarf_proxy.Prelude.{
  ℕ, Bool, true, false, ◌≡◌, refl, arith, List, [], ◌∷◌, ◌++◌, Option, some, none,
}
use redscarf_proxy.Guid.{zero_guid}
use redscarf_proxy.Wire.Bytes.{le_bytes, le_value}
use redscarf_proxy.Wire.BitReader.{bits, bits_loop, bit, align}
use redscarf_proxy.Wire.Packed.{
  read_packed_guid, read_packed_guid128, unpack_loop, append_legacy_packed_guid, pack_loop,
}
use redscarf_proxy.Wire.Reader.{number, pure, take_bytes, ◌>>=◌, guard, optional, replicate}
use redscarf_proxy.Wire.Reader.Written.{concat}
use redscarf_proxy.Update.Movement.{has}
use redscarf_proxy.Movement.{read_body}
use redscarf_proxy.CastSpell.{
  SpellCastRequest, cast_spell, cast_parts, trajectory_bytes, parse_cast_spell,
  encode_legacy_cast_spell,
}
use redscarf_proxy.CastSpell.Targets.{
  has_value, legacy_guid, append_spell_target_data, SpellTargetLocation, aligned, bit_fields,
  present, spell_target_data, spell_target_parts, SpellCastTargets, no_targets,
  append_legacy_spell_targets, legacy_spell_targets,
}
use redscarf_proxy.CastSpell.Server.{
  SpellCastData, parse_legacy_spell_start_or_go, cast_header, spell_start_or_go, hits_part,
  spell_miss, cast_rest, ammo_part, go_end, is_pet_header,
}
use redscarf_proxy.CastSpell.Server.Bounds.{Bounded, parse_legacy_spell_start_or_go-Bounded}
use redscarf_proxy.Spell.Packets.{convert_spell_cast_result}
use redscarf_proxy.CastSpell.Channel.{
  encode_spell_failed_other, parse_legacy_spell_failure, failure_rest, failure_end, failure_bytes,
}
use redscarf_proxy.CastSpell.Client.{sent_cast_flags}
use redscarf_proxy.CastSpell.Targets.ModernRoundTrip.{
  FitModernTargets, IsLocation, parse-append_spell_target_data,
}
use redscarf_proxy.CastSpell.Targets.RoundTrip.{
  seen_targets, FitTargets, place_of, parse-append_legacy_spell_targets,
}

abbrev same_angle : ℕ → ℕ
same_angle angle = angle

-- The spell 133 at the unit 7, with a missile.
abbrev fireball_body : List ℕ
fireball_body =
    0 ∷ 0 ∷ 0 ∷ 0 ∷ 0 ∷ 0 ∷ 0 ∷ 0 ∷ 0 ∷ 0 ∷ 133 ∷ 0 ∷ 0 ∷ 0 ∷ 9 ∷ 0 ∷ 0 ∷ 0 ∷ 1 ∷ 0 ∷ 0 ∷ 0 ∷ 2 ∷ 0
    ∷ 0 ∷ 0 ∷ 0 ∷ 0 ∷ 0 ∷ 0 ∷ 0 ∷ 0 ∷ 0 ∷ 0 ∷ 0 ∷ 0 ∷ 0 ∷ 0 ∷ 0 ∷ 0 ∷ 16 ∷ 0 ∷ 0 ∷ 0 ∷ 0 ∷ 32 ∷ 0
    ∷ 1 ∷ 0 ∷ 7 ∷ 0 ∷ 0 ∷ []

abbrev fireball : SpellCastRequest
fireball = record {
  cast_id = zero_guid;
  spell_id = 133;
  spell_x_spell_visual_id = 9;
  send_cast_flags = 2;
  missile_pitch = 1;
  missile_speed = 2;
  target = record no_targets { flags = 2; unit = record { low = 7; high = 0 } };
  misc = (0, 0);
  move = none;
}

fireball_is_parsed : parse_cast_spell same_angle fireball_body ≡ some fireball
unfolding parse_cast_spell read_body cast_spell ◌>>=◌ read_packed_guid128 unpack_loop number
    take_bytes pure guard le_value replicate aligned bit_fields bits bits_loop bit cast_parts
    present spell_target_data spell_target_parts align optional
fireball_is_parsed = refl

fireball_is_translated :
    encode_legacy_cast_spell fireball 7 0 0 0
    ≡ 0 ∷ 133 ∷ 0 ∷ 0 ∷ 0 ∷ 2 ∷ 2 ∷ 0 ∷ 0 ∷ 0 ∷ 1 ∷ 7 ∷ 1 ∷ 0 ∷ 0 ∷ 0 ∷ 2 ∷ 0 ∷ 0 ∷ 0 ∷ 0 ∷ []
unfolding encode_legacy_cast_spell concat le_bytes append_legacy_spell_targets has
    append_legacy_packed_guid pack_loop trajectory_bytes
fireball_is_translated = refl

-- A place on the ship 9 and a name.
abbrev placed : SpellCastTargets
placed = record no_targets {
  flags = 0x2040;
  dst = some (record { transport = zero_guid; location = (4, 5, 6) });
  name = 65 ∷ 66 ∷ [];
}

placed_fits : FitTargets placed
unfolding place_of
placed_fits = record {
  flags_fit = omega arith;
  src_fits = record { x_fits = omega arith; y_fits = omega arith; z_fits = omega arith };
  dst_fits = record { x_fits = omega arith; y_fits = omega arith; z_fits = omega arith };
  plain_name = ((λ e. omega arith), ((λ e. omega arith), tt));
}

parse-append_legacy_spell_targets_example :
    legacy_spell_targets (append_legacy_spell_targets placed 7 0 0 9 ++ (1 ∷ 2 ∷ []))
    ≡ some (seen_targets placed 7 0 0 9, 1 ∷ 2 ∷ [])
parse-append_legacy_spell_targets_example =
    parse-append_legacy_spell_targets placed 7 0 0 9 (1 ∷ 2 ∷ []) placed_fits (omega arith)
      (omega arith) (omega arith) (omega arith)

place_fits : (place : SpellTargetLocation) → placed.dst ≡ some place → IsLocation place
place_fits place e = record {
  low_fits = ground arith;
  high_fits = ground arith;
  point_fits = record { x_fits = ground arith; y_fits = ground arith; z_fits = ground arith };
}

placed_fits_modern : FitModernTargets placed
placed_fits_modern = record {
  flags_fit = omega arith;
  unit_low = omega arith;
  unit_high = omega arith;
  item_low = omega arith;
  item_high = omega arith;
  src_fits = λ place e. absurd (ground arith);
  dst_fits = place_fits;
  orientation_fits = λ angle e. absurd (ground arith);
  map_fits = λ id e. absurd (ground arith);
  name_fits = omega arith;
}

parse-append_spell_target_data_example :
    spell_target_data (append_spell_target_data placed ++ (1 ∷ [])) ≡ some (placed, 1 ∷ [])
parse-append_spell_target_data_example =
    parse-append_spell_target_data placed (1 ∷ []) placed_fits_modern

-- The player 5 hits the unit 8 and misses the unit 9, which reflects.
abbrev go_body : List ℕ
go_body =
    1 ∷ 5 ∷ 1 ∷ 5 ∷ 0 ∷ 133 ∷ 0 ∷ 0 ∷ 0 ∷ 0 ∷ 2 ∷ 0 ∷ 0 ∷ 1 ∷ 0 ∷ 0 ∷ 0 ∷ 1 ∷ 8 ∷ 0 ∷ 0 ∷ 0 ∷ 0 ∷ 0
    ∷ 0 ∷ 0 ∷ 1 ∷ 9 ∷ 0 ∷ 0 ∷ 0 ∷ 0 ∷ 0 ∷ 0 ∷ 0 ∷ 7 ∷ 2 ∷ 2 ∷ 0 ∷ 0 ∷ 0 ∷ 1 ∷ 7 ∷ 3 ∷ 0 ∷ 0 ∷ 0 ∷ 4
    ∷ 0 ∷ 0 ∷ 0 ∷ []

abbrev reported : SpellCastData
reported = record {
  pet_load_cooldown = false;
  caster_guid = 5;
  caster_unit = 5;
  spell_id = 133;
  visual_id = 0;
  cast_flags = 0x200;
  cast_time = 1;
  hit_targets = 8 ∷ [];
  miss_targets = record { target = 9; reason = 7; reflect = 2 } ∷ [];
  target = record no_targets { flags = 2; unit = record { low = 7; high = 0 } };
  ammo_display_id = some 3;
  ammo_inventory = some 4;
  travel_time = 0;
  pitch = 0;
  immunity_school = 0;
  immunity_value = 0;
  remaining_power = [];
  remaining_runes = none;
}

go_is_parsed : parse_legacy_spell_start_or_go go_body true ≡ some reported
unfolding parse_legacy_spell_start_or_go cast_header spell_start_or_go hits_part spell_miss
    cast_rest legacy_spell_targets legacy_guid ammo_part go_end ◌>>=◌ read_packed_guid unpack_loop
    number take_bytes pure guard le_value replicate optional has
go_is_parsed = refl

abbrev pet_loaded : Option SpellCastData → Option Bool
pet_loaded none = none
pet_loaded (some cast) = some cast.pet_load_cooldown

-- The header of a pet that is loaded.
pet_header_is_known :
    pet_loaded (
      parse_legacy_spell_start_or_go
        (1 ∷ 5 ∷ 1 ∷ 5 ∷ 0 ∷ 133 ∷ 0 ∷ 0 ∷ 0 ∷ 0 ∷ 1 ∷ 0 ∷ 0 ∷ 0 ∷ 0 ∷ 0 ∷ 0 ∷ [])
        true)
    ≡ some true
unfolding parse_legacy_spell_start_or_go cast_header spell_start_or_go is_pet_header ◌>>=◌
    read_packed_guid unpack_loop number take_bytes pure le_value
pet_header_is_known = refl

parse_legacy_spell_start_or_go-Bounded_example : Bounded reported
parse_legacy_spell_start_or_go-Bounded_example =
    parse_legacy_spell_start_or_go-Bounded go_body true reported go_is_parsed

-- The flag of a trajectory is added, since the cast has no places.
go_flags : sent_cast_flags true reported ≡ 0x202
unfolding sent_cast_flags has_value
go_flags = refl

-- The reason 187 is the result 321, of which one byte is 65: the result of the reason 42.
truncated_reason :
    (encode_spell_failed_other zero_guid zero_guid
        (record { caster = 0; spell_id = 1; reason = 187 })
        0
      ≡ encode_spell_failed_other zero_guid zero_guid
          (record { caster = 0; spell_id = 1; reason = 42 })
          0)
    × (convert_spell_cast_result 187 ≡ 321)
unfolding encode_spell_failed_other convert_spell_cast_result failure_bytes
truncated_reason = (refl, refl)

-- The failure of a cast with a count in front.
failure_is_parsed :
    parse_legacy_spell_failure (1 ∷ 5 ∷ 9 ∷ 133 ∷ 0 ∷ 0 ∷ 0 ∷ 40 ∷ [])
    ≡ some (record { caster = 5; spell_id = 133; reason = 40 })
unfolding parse_legacy_spell_failure failure_rest failure_end read_body ◌>>=◌ read_packed_guid
    unpack_loop number take_bytes pure le_value
failure_is_parsed = refl
