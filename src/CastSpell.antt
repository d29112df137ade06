-- ===== src/CastSpell.antt =====
-- The requests to cast of internal/modernworld/spell.go: `ParseCastSpell` and `ParseUseItem` read them from the
-- 3.4.3 client, `EncodeLegacyCastSpell` and `EncodeLegacyUseItem` write them for the 3.3.5 server.
-- `clampOrientation` is a parameter. An error is `none`.
pub mod Targets
pub mod Server
pub mod Client
pub mod Channel
use redscarf_proxy.Prelude.{
  ℕ, ◌-◌, ◌==◌, ◌&&◌, leb, not, if◌then◌else◌, Bool, true, false, List, [], ◌∷◌, ◌++◌, Option, none,
  some,
}
use redscarf_proxy.Guid.{Guid128}
use redscarf_proxy.Wire.Bytes.{le_bytes}
use redscarf_proxy.Wire.Packed.{read_packed_guid128}
use redscarf_proxy.Wire.Reader.{Reader, pure, fail, ◌>>=◌, u8, u32, f32, optional, guard, replicate}
use redscarf_proxy.Wire.Reader.Written.{concat}
use redscarf_proxy.Update.Movement.{has}
use redscarf_proxy.Movement.{PlayerMovement, read_body}
use redscarf_proxy.Movement.Modern.{modern_movement_stats}
use redscarf_proxy.CastSpell.Server.{cast_flag_has_trajectory}
use redscarf_proxy.CastSpell.Targets.{
  SpellCastTargets, no_targets, aligned, bit_fields, present, spell_target_data,
  append_legacy_spell_targets,
}

pub record SpellCastRequest : Type 0 where
  pub cast_id : Guid128
  pub spell_id : ℕ
  pub spell_x_spell_visual_id : ℕ
  pub send_cast_flags : ℕ
  pub missile_pitch : ℕ
  pub missile_speed : ℕ
  pub target : SpellCastTargets
  pub misc : ℕ × ℕ
  pub move : Option PlayerMovement

pub record UseItemRequest : Type 0 where
  pub pack_slot : ℕ
  pub slot : ℕ
  pub cast_item : Guid128
  pub cast : SpellCastRequest

abbrev max_spell_optional_items : ℕ
max_spell_optional_items = 8

-- A reagent or a currency: three numbers that are not kept.
unfoldable pub optional_item : Reader ℕ
optional_item = do id ← u32; slot ← u32; count ← u32; pure id

unfoldable pub weight : Reader ℕ
weight = do kind ← aligned (bit_fields (2 ∷ [])); id ← u32; quantity ← u32; pure id

module _ (clamp : ℕ → ℕ) where
  -- What follows the flags, by the bits behind these: the flags, a movement, the number of weights and
  -- a crafting order.
  unfoldable pub cast_parts : SpellCastRequest → List ℕ → Reader SpellCastRequest
  cast_parts request (flags ∷ has_move ∷ weight_count ∷ has_order ∷ []) = do
    target ← spell_target_data
    move ← present has_move (modern_movement_stats clamp)
    weights ← replicate weight_count weight
    pure (record request { send_cast_flags = flags; target = target; move = move })
  cast_parts request fields = fail

  unfoldable pub cast_spell : Reader SpellCastRequest
  cast_spell = do
    cast_id ← read_packed_guid128
    misc0 ← u32
    misc1 ← u32
    spell_id ← u32
    visual ← u32
    pitch ← f32
    speed ← f32
    crafting_npc ← read_packed_guid128
    reagent_count ← u32
    currency_count ← u32
    removed_count ← u32
    guard
        (leb reagent_count max_spell_optional_items && leb currency_count max_spell_optional_items)
        (do
          reagents ← replicate reagent_count optional_item
          currencies ← replicate currency_count optional_item
          fields ← aligned (bit_fields (5 ∷ 1 ∷ 2 ∷ 1 ∷ []))
          cast_parts
              (record {
                cast_id = cast_id;
                spell_id = spell_id;
                spell_x_spell_visual_id = visual;
                send_cast_flags = 0;
                missile_pitch = pitch;
                missile_speed = speed;
                target = no_targets;
                misc = (misc0, misc1);
                move = none;
              })
              fields)

  unfoldable pub parse_cast_spell : List ℕ → Option SpellCastRequest
  parse_cast_spell = read_body cast_spell

-- `AdjustInventorySlot` of internal/modernworld/inventory.go.
unfoldable pub adjust_inventory_slot : ℕ → ℕ
adjust_inventory_slot slot =
    if leb 30 slot && leb slot 33
    then slot - 11
    else (if leb 35 slot && leb slot 58
        then slot - 12
        else (if leb 59 slot && leb slot 137 then slot - 20 else slot))

-- The slot in the pack, or without a pack the slot of the player, is counted in the 3.3.5 way.
unfoldable pub adjusted_use_item : UseItemRequest → UseItemRequest
adjusted_use_item request =
    if request.pack_slot == 0xff
    then record request { slot = adjust_inventory_slot request.slot }
    else record request { pack_slot = adjust_inventory_slot request.pack_slot }

unfoldable pub parse_use_item : (ℕ → ℕ) → List ℕ → Option UseItemRequest
parse_use_item clamp = read_body (do
  pack_slot ← u8
  slot ← u8
  cast_item ← read_packed_guid128
  cast ← cast_spell clamp
  pure (
      adjusted_use_item
        (record { pack_slot = pack_slot; slot = slot; cast_item = cast_item; cast = cast })))

-- The missile of a request that has one. The movement is sent on its own.
unfoldable pub trajectory_bytes : SpellCastRequest → List ℕ
trajectory_bytes request =
    if has request.send_cast_flags cast_flag_has_trajectory
    then le_bytes 4 request.missile_pitch ++ (le_bytes 4 request.missile_speed ++ (0 ∷ []))
    else []

unfoldable pub encode_legacy_cast_spell : SpellCastRequest → ℕ → ℕ → ℕ → ℕ → List ℕ
encode_legacy_cast_spell request unit item src_transport dst_transport = concat (
    (0 ∷ [])
    ∷ le_bytes 4 request.spell_id
    ∷ (request.send_cast_flags ∷ [])
    ∷ append_legacy_spell_targets request.target unit item src_transport dst_transport
    ∷ trajectory_bytes request
    ∷ [])

unfoldable pub encode_legacy_use_item : UseItemRequest → ℕ → ℕ → ℕ → ℕ → ℕ → List ℕ
encode_legacy_use_item request cast_item unit item src_transport dst_transport = concat (
    (request.pack_slot ∷ request.slot ∷ 0 ∷ [])
    ∷ le_bytes 4 request.cast.spell_id
    ∷ le_bytes 8 cast_item
    ∷ le_bytes 4 request.cast.misc.0
    ∷ (request.cast.send_cast_flags ∷ [])
    ∷ append_legacy_spell_targets request.cast.target unit item src_transport dst_transport
    ∷ trajectory_bytes request.cast
    ∷ [])
