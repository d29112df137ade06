-- ===== src/CastSpell/Channel.antt =====
-- Channels, modifiers, failures and cancels of spells in internal/modernworld/spell.go. An error of a parser is
-- `none`; an int32 is kept as its bit pattern.
use redscarf_proxy.Prelude.{
  ℕ, ◌==◌, ◌%◌, ◌^◌, if◌then◌else◌, false, List, [], ◌∷◌, ◌++◌, Option, none, length,
}
use redscarf_proxy.Guid.{Guid128}
use redscarf_proxy.Wire.Bytes.{le_bytes}
use redscarf_proxy.Wire.BitWriter.{new_bit_writer, write_bit, flush}
use redscarf_proxy.Wire.Packed.{append_packed_guid128, read_packed_guid128}
use redscarf_proxy.Wire.Reader.{Reader, pure, ◌>>=◌, u8, u32, packed_guid}
use redscarf_proxy.Wire.Reader.Written.{concat}
use redscarf_proxy.Movement.{read_body}
use redscarf_proxy.Spell.Packets.{convert_spell_cast_result}

pub record SpellChannelStartInfo : Type 0 where
  pub caster : ℕ
  pub spell_id : ℕ
  pub duration : ℕ

pub record SpellChannelUpdateInfo : Type 0 where
  pub caster : ℕ
  pub time_remaining : ℕ

pub record LegacySpellModifier : Type 0 where
  pub class_index : ℕ
  pub mod_index : ℕ
  pub value : ℕ

pub record CancelCastRequest : Type 0 where
  pub cast_id : Guid128
  pub spell_id : ℕ

pub record SpellFailure : Type 0 where
  pub caster : ℕ
  pub spell_id : ℕ
  pub reason : ℕ

unfoldable pub parse_legacy_spell_channel_start : List ℕ → Option SpellChannelStartInfo
parse_legacy_spell_channel_start = read_body (do
  caster ← packed_guid
  spell_id ← u32
  duration ← u32
  pure (record { caster = caster; spell_id = spell_id; duration = duration }))

unfoldable pub encode_spell_channel_start : Guid128 → ℕ → ℕ → ℕ → List ℕ
encode_spell_channel_start caster spell_id visual_id duration = concat (
    append_packed_guid128 [] caster
    ∷ le_bytes 4 spell_id
    ∷ le_bytes 4 visual_id
    ∷ le_bytes 4 duration
    ∷ (flush (write_bit false (write_bit false (new_bit_writer [])))).bytes
    ∷ [])

unfoldable pub parse_legacy_spell_channel_update : List ℕ → Option SpellChannelUpdateInfo
parse_legacy_spell_channel_update =
    read_body (do
      caster ← packed_guid
      time ← u32
      pure (record { caster = caster; time_remaining = time }))

unfoldable pub encode_spell_channel_update : Guid128 → ℕ → List ℕ
encode_spell_channel_update caster time = append_packed_guid128 [] caster ++ le_bytes 4 time

unfoldable pub parse_legacy_spell_modifier : List ℕ → Option LegacySpellModifier
parse_legacy_spell_modifier = read_body (do
  class_index ← u8
  mod_index ← u8
  value ← u32
  pure (record { class_index = class_index; mod_index = mod_index; value = value }))

-- One modifier with one value.
unfoldable pub encode_spell_modifier : LegacySpellModifier → List ℕ
encode_spell_modifier modifier = concat (
    le_bytes 4 1
    ∷ (modifier.mod_index ∷ [])
    ∷ le_bytes 4 1
    ∷ le_bytes 4 modifier.value
    ∷ (modifier.class_index ∷ [])
    ∷ [])

unfoldable pub parse_cancel_cast : List ℕ → Option CancelCastRequest
parse_cancel_cast = read_body (do
  cast_id ← read_packed_guid128
  spell_id ← u32
  pure (record { cast_id = cast_id; spell_id = spell_id }))

unfoldable pub encode_legacy_cancel_cast : ℕ → List ℕ
encode_legacy_cancel_cast spell_id = 0 ∷ le_bytes 4 spell_id

unfoldable pub parse_cancel_aura : List ℕ → Option (ℕ × Guid128)
parse_cancel_aura =
    read_body (do spell_id ← u32; caster ← read_packed_guid128; pure (spell_id, caster))

unfoldable pub encode_legacy_cancel_aura : ℕ → List ℕ
encode_legacy_cancel_aura spell_id = le_bytes 4 spell_id

unfoldable pub failure_end : ℕ → Reader SpellFailure
failure_end caster = do
  spell_id ← u32
  reason ← u8
  pure (record { caster = caster; spell_id = spell_id; reason = reason })

-- Six bytes behind the caster have a count in front, five have none, and no other number is taken.
unfoldable pub failure_rest : ℕ → Reader SpellFailure
failure_rest caster bytes =
    if length bytes == 6
    then (u8 >>= λ count. failure_end caster) bytes
    else (if length bytes == 5 then failure_end caster bytes else none)

unfoldable pub parse_legacy_spell_failure : List ℕ → Option SpellFailure
parse_legacy_spell_failure = read_body (packed_guid >>= failure_rest)

unfoldable pub failure_bytes : Guid128 → Guid128 → SpellFailure → ℕ → List ℕ
failure_bytes caster cast_id info visual_id = concat (
    append_packed_guid128 [] caster
    ∷ append_packed_guid128 [] cast_id
    ∷ le_bytes 4 info.spell_id
    ∷ le_bytes 4 visual_id
    ∷ [])

unfoldable pub encode_spell_failure : Guid128 → Guid128 → SpellFailure → ℕ → List ℕ
encode_spell_failure caster cast_id info visual_id =
    failure_bytes caster cast_id info visual_id
    ++ le_bytes 2 (convert_spell_cast_result info.reason)

-- The reason has one byte here.
unfoldable pub encode_spell_failed_other : Guid128 → Guid128 → SpellFailure → ℕ → List ℕ
encode_spell_failed_other caster cast_id info visual_id =
    failure_bytes caster cast_id info visual_id
    ++ (convert_spell_cast_result info.reason % 2 ^ 8 ∷ [])
