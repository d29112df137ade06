-- ===== src/CastSpell/Server.antt =====
-- The casts that the 3.3.5 server reports: `ParseLegacySpellStartOrGo` and `encodeSpellCastData` of
-- internal/modernworld/spell.go, with the runes of internal/modernworld/rune.go. A pointer that may be nil is an
-- `Option`.
pub mod Bounds
use redscarf_proxy.Prelude.{
  ℕ, zero, suc, ◌+◌, ◌*◌, ◌/◌, ◌%◌, ◌^◌, ◌==◌, ◌&&◌, ◌||◌, leb, ltb, not, bit_or, if◌then◌else◌,
  Bool, true, false, List, [], ◌∷◌, ◌++◌, Option, none, some, length, map,
}
use redscarf_proxy.Guid.{Guid128, zero_guid}
use redscarf_proxy.Wire.Bytes.{le_bytes}
use redscarf_proxy.Wire.BitWriter.{new_bit_writer, write_bit, write_bits, flush}
use redscarf_proxy.Wire.Packed.{append_packed_guid128}
use redscarf_proxy.Wire.Reader.{
  Reader, pure, fail, ◌>>=◌, u8, u32, u64, f32, packed_guid, optional, guard, replicate, floats3,
}
use redscarf_proxy.Wire.Reader.Written.{concat}
use redscarf_proxy.Update.Movement.{has}
use redscarf_proxy.CastSpell.Targets.{
  SpellCastTargets, no_targets, target_flag_dest_loc, has_value, option_bytes,
  append_spell_target_data, legacy_spell_targets,
}

pub record SpellMiss : Type 0 where
  pub target : ℕ
  pub reason : ℕ
  pub reflect : ℕ

pub record RuneData : Type 0 where
  pub start : ℕ
  pub count : ℕ
  pub cooldowns : List ℕ

pub record SpellPowerData : Type 0 where
  pub cost : ℕ
  pub kind : ℕ

pub record SpellCastData : Type 0 where
  pub pet_load_cooldown : Bool
  pub caster_guid : ℕ
  pub caster_unit : ℕ
  pub spell_id : ℕ
  pub visual_id : ℕ
  pub cast_flags : ℕ
  pub cast_time : ℕ
  pub hit_targets : List ℕ
  pub miss_targets : List SpellMiss
  pub target : SpellCastTargets
  pub ammo_display_id : Option ℕ
  pub ammo_inventory : Option ℕ
  pub travel_time : ℕ
  pub pitch : ℕ
  pub immunity_school : ℕ
  pub immunity_value : ℕ
  pub remaining_power : List SpellPowerData
  pub remaining_runes : Option RuneData

abbrev pub max_spell_targets : ℕ
max_spell_targets = 64

abbrev target_flag_extra_targets : ℕ
target_flag_extra_targets = 0x00080000

abbrev pub cast_flag_has_trajectory : ℕ
cast_flag_has_trajectory = 0x00000002

abbrev cast_flag_projectile : ℕ
cast_flag_projectile = 0x00000200

abbrev cast_flag_predicted_power : ℕ
cast_flag_predicted_power = 0x00000800

abbrev cast_flag_adjust_missile : ℕ
cast_flag_adjust_missile = 0x00020000

abbrev cast_flag_visual_chain : ℕ
cast_flag_visual_chain = 0x00080000

abbrev cast_flag_rune_list : ℕ
cast_flag_rune_list = 0x00200000

abbrev cast_flag_immunity : ℕ
cast_flag_immunity = 0x04000000

abbrev cast_flag_heal_prediction : ℕ
cast_flag_heal_prediction = 0x40000000

-- The header, without the cast count.
unfoldable pub cast_header : Reader (ℕ × SpellCastData)
cast_header = do
  caster ← packed_guid
  unit ← packed_guid
  cast_count ← u8
  spell_id ← u32
  cast_flags ← u32
  cast_time ← u32
  pure (
    cast_count,
    record {
      pet_load_cooldown = false;
      caster_guid = caster;
      caster_unit = unit;
      spell_id = spell_id;
      visual_id = 0;
      cast_flags = cast_flags;
      cast_time = cast_time;
      hit_targets = [];
      miss_targets = [];
      target = no_targets;
      ammo_display_id = none;
      ammo_inventory = none;
      travel_time = 0;
      pitch = 0;
      immunity_school = 0;
      immunity_value = 0;
      remaining_power = [];
      remaining_runes = none;
    },
  )

-- The header that the server sends alone for the cooldown of a pet that is loaded.
unfoldable pub is_pet_header : ℕ → SpellCastData → Bool
is_pet_header cast_count cast =
    cast_count == 0
    && not (cast.spell_id == 0)
    && cast.cast_flags == 0x100
    && cast.cast_time == 0
    && not (cast.caster_guid == 0)
    && cast.caster_guid / 2 ^ 48 == 0
    && cast.caster_guid == cast.caster_unit

unfoldable pub spell_miss : Reader SpellMiss
spell_miss = do
  target ← u64
  reason ← u8
  reflect ← optional (reason == 7) u8 0
  pure (record { target = target; reason = reason; reflect = reflect })

unfoldable pub hits_part : SpellCastData → Reader SpellCastData
hits_part cast = do
  hit_count ← u8
  hits ← guard (leb hit_count max_spell_targets) (replicate hit_count u64)
  miss_count ← u8
  misses ← guard (leb miss_count max_spell_targets) (replicate miss_count spell_miss)
  pure (record cast { hit_targets = hits; miss_targets = misses })

-- Bit `index` of a mask of runes.
unfoldable pub has_rune : ℕ → ℕ → Bool
has_rune mask index = has mask (2 ^ index)

unfoldable pub rune_cooldown : ℕ → ℕ → ℕ → Reader ℕ
rune_cooldown recharging usable index =
    if has_rune usable index
    then pure 0xff
    else (if has_rune recharging index
        then (do left ← u8; pure (if left == 0 then 1 else left))
        else pure 0)

-- The rounds that are left of the six, from this rune on.
unfoldable pub rune_cooldowns : ℕ → ℕ → ℕ → ℕ → Reader (List ℕ)
rune_cooldowns recharging usable zero index = pure []
rune_cooldowns recharging usable (suc rounds) index = do
  cooldown ← rune_cooldown recharging usable index
  rest ← rune_cooldowns recharging usable rounds (index + 1)
  pure (cooldown ∷ rest)

unfoldable pub rune_pair : ℕ → ℕ → ℕ
rune_pair usable index =
    (if has_rune usable index then 1 else 0) + (if has_rune usable (index + 1) then 1 else 0)

unfoldable pub rune_remaining_power : ℕ → List SpellPowerData
rune_remaining_power usable =
    record { cost = rune_pair usable 0; kind = 0x15 }
    ∷ record { cost = rune_pair usable 4; kind = 0x16 }
    ∷ record { cost = rune_pair usable 2; kind = 0x17 }
    ∷ []

unfoldable pub runes_part : Bool → SpellCastData → Reader SpellCastData
runes_part is_spell_go cast = do
  recharging ← u8
  usable ← u8
  cooldowns ← rune_cooldowns recharging usable 6 0
  pure (record cast {
    remaining_power = rune_remaining_power usable;
    remaining_runes =
        if is_spell_go && not (recharging == 0)
        then some (record { start = recharging; count = usable; cooldowns = cooldowns })
        else none;
  })

unfoldable pub missile_part : SpellCastData → Reader SpellCastData
missile_part cast = do
  pitch ← f32
  travel ← u32
  pure (record cast { pitch = pitch; travel_time = travel })

unfoldable pub ammo_part : SpellCastData → Reader SpellCastData
ammo_part cast = do
  display ← u32
  inventory ← u32
  pure (record cast { ammo_display_id = some display; ammo_inventory = some inventory })

unfoldable pub extra_target : Reader ℕ
extra_target = do place ← floats3; guid ← u64; pure guid

-- An int32 that is negative is above the bound as well.
unfoldable pub extra_targets_part : Reader (List ℕ)
extra_targets_part = do
  count ← u32
  guard (leb count max_spell_targets) (replicate count extra_target)

unfoldable pub pair_part : Reader (ℕ × ℕ)
pair_part = do first ← u32; second ← u32; pure (first, second)

unfoldable pub heal_prediction_part : Reader ℕ
heal_prediction_part = do spell ← u32; kind ← u8; optional (kind == 2) packed_guid 0

unfoldable pub go_end : SpellCastData → Reader SpellCastData
go_end cast = do
  chain ← optional (has cast.cast_flags cast_flag_visual_chain) pair_part (0, 0)
  index ← optional (has cast.target.flags target_flag_dest_loc) u8 0
  extra ← optional (has cast.target.flags target_flag_extra_targets) extra_targets_part []
  pure cast

unfoldable pub start_end : SpellCastData → Reader SpellCastData
start_end cast = do
  immunity ← optional (has cast.cast_flags cast_flag_immunity) pair_part (0, 0)
  beacon ← optional (has cast.cast_flags cast_flag_heal_prediction) heal_prediction_part 0
  pure (record cast { immunity_school = immunity.0; immunity_value = immunity.1 })

-- What follows the hits of a GO and the header of a START.
unfoldable pub cast_rest : Bool → SpellCastData → Reader SpellCastData
cast_rest is_spell_go cast = do
  target ← legacy_spell_targets
  power ← optional (has cast.cast_flags cast_flag_predicted_power) u32 0
  let aimed : SpellCastData = record cast { target = target }
  runed ← optional (has cast.cast_flags cast_flag_rune_list) (runes_part is_spell_go aimed) aimed
  flown ←
      optional (is_spell_go && has cast.cast_flags cast_flag_adjust_missile) (missile_part runed)
        runed
  armed ← optional (has cast.cast_flags cast_flag_projectile) (ammo_part flown) flown
  if is_spell_go then go_end armed else start_end armed

unfoldable pub spell_start_or_go : Bool → ℕ × SpellCastData → Reader SpellCastData
spell_start_or_go is_spell_go (cast_count, cast) bytes =
    if is_spell_go
    then (if length bytes == 0 && is_pet_header cast_count cast
        then some (record cast { pet_load_cooldown = true }, bytes)
        else (hits_part cast >>= cast_rest true) bytes)
    else cast_rest false cast bytes

-- Bytes that are left are ignored.
unfoldable pub parse_legacy_spell_start_or_go : List ℕ → Bool → Option SpellCastData
parse_legacy_spell_start_or_go body is_spell_go =
    elim ((cast_header >>= spell_start_or_go is_spell_go) body) [
      | none ↦ none
      | some (cast, rest) ↦ some cast
    ]
