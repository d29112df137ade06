-- ===== src/CastSpell/Client.antt =====
-- The casts that the 3.4.3 client is told of: `EncodeSpellStart` and `EncodeSpellGo` of
-- internal/modernworld/spell.go, with the runes and powers of internal/modernworld/rune.go.
use redscarf_proxy.Prelude.{
  ℕ, ◌==◌, ◌&&◌, ◌||◌, not, bit_or, if◌then◌else◌, Bool, true, false, List, [], ◌∷◌, ◌++◌, length,
  map,
}
use redscarf_proxy.Guid.{Guid128, zero_guid}
use redscarf_proxy.Wire.Bytes.{le_bytes}
use redscarf_proxy.Wire.BitWriter.{new_bit_writer, write_bit, write_bits, flush}
use redscarf_proxy.Wire.Packed.{append_packed_guid128}
use redscarf_proxy.Wire.Reader.Written.{concat}
use redscarf_proxy.CastSpell.Targets.{has_value, option_bytes, append_spell_target_data}
use redscarf_proxy.CastSpell.Server.{
  SpellMiss, RuneData, SpellPowerData, SpellCastData, cast_flag_has_trajectory,
}

abbrev zero_pitch : ℕ → Bool
zero_pitch x = x == 0 || x == 0x80000000

-- A GO without places, or with a trajectory, has the flag of a trajectory.
unfoldable pub sent_cast_flags : Bool → SpellCastData → ℕ
sent_cast_flags is_spell_go cast =
    if is_spell_go
      && (not (cast.travel_time == 0)
          || not (zero_pitch cast.pitch)
          || (not (has_value cast.target.dst) && not (has_value cast.target.src)))
    then bit_or cast.cast_flags cast_flag_has_trajectory
    else cast.cast_flags

unfoldable pub encode_rune_data : RuneData → List ℕ
encode_rune_data runes =
    concat (
      (runes.start ∷ runes.count ∷ []) ∷ le_bytes 4 (length runes.cooldowns) ∷ runes.cooldowns ∷ [])

unfoldable pub encode_spell_power_data : SpellPowerData → List ℕ
encode_spell_power_data power = le_bytes 4 power.cost ++ (power.kind ∷ [])

unfoldable pub miss_bytes : SpellMiss → List ℕ
miss_bytes miss = if miss.reason == 7 then miss.reason ∷ miss.reflect ∷ [] else miss.reason ∷ []

unfoldable pub cast_bits : SpellCastData → List Guid128 → List Guid128 → List ℕ
cast_bits cast hits misses =
    (flush (
      write_bit (has_value cast.ammo_inventory) (
        write_bit (has_value cast.ammo_display_id) (
          write_bits 0 16 (
            write_bit (has_value cast.remaining_runes) (
              write_bits (length cast.remaining_power) 9 (
                write_bits (length cast.miss_targets) 16 (
                  write_bits (length misses) 16
                    (write_bits (length hits) 16 (new_bit_writer [])))))))))).bytes

unfoldable pub encode_spell_cast_data :
    SpellCastData → Guid128 → Guid128 → Guid128 → List Guid128 → List Guid128 → Bool → List ℕ
encode_spell_cast_data cast caster unit cast_id hits misses is_spell_go = concat (
    append_packed_guid128 [] caster
    ∷ append_packed_guid128 [] unit
    ∷ append_packed_guid128 [] cast_id
    ∷ append_packed_guid128 [] zero_guid
    ∷ le_bytes 4 cast.spell_id
    ∷ le_bytes 4 cast.visual_id
    ∷ le_bytes 4 (sent_cast_flags is_spell_go cast)
    ∷ le_bytes 4 0
    ∷ le_bytes 4 cast.cast_time
    ∷ le_bytes 4 cast.travel_time
    ∷ le_bytes 4 cast.pitch
    ∷ (0 ∷ [])
    ∷ le_bytes 4 cast.immunity_school
    ∷ le_bytes 4 cast.immunity_value
    ∷ le_bytes 4 0
    ∷ (0 ∷ [])
    ∷ append_packed_guid128 [] zero_guid
    ∷ cast_bits cast hits misses
    ∷ append_spell_target_data cast.target
    ∷ concat (map (append_packed_guid128 []) hits)
    ∷ concat (map (append_packed_guid128 []) misses)
    ∷ concat (map miss_bytes cast.miss_targets)
    ∷ concat (map encode_spell_power_data cast.remaining_power)
    ∷ option_bytes encode_rune_data cast.remaining_runes
    ∷ option_bytes (le_bytes 4) cast.ammo_display_id
    ∷ option_bytes (le_bytes 4) cast.ammo_inventory
    ∷ [])

unfoldable pub encode_spell_start :
    SpellCastData → Guid128 → Guid128 → Guid128 → List Guid128 → List Guid128 → List ℕ
encode_spell_start cast caster unit cast_id hits misses =
    encode_spell_cast_data cast caster unit cast_id hits misses false

unfoldable pub encode_spell_go :
    SpellCastData → Guid128 → Guid128 → Guid128 → List Guid128 → List Guid128 → List ℕ
encode_spell_go cast caster unit cast_id hits misses =
    (flush (
      write_bit false
        (new_bit_writer (encode_spell_cast_data cast caster unit cast_id hits misses true)))).bytes
