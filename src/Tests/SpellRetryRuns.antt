-- ===== src/Tests/SpellRetryRuns.antt =====
-- Retries and matching of the spell queue of internal/proxy on concrete histories.
use redscarf_proxy.Prelude.{if◌then◌else◌, ◌==◌, ◌*◌, ◌≡◌, refl, false, [], ◌∷◌, some, none}
use redscarf_proxy.Guid.{guid_eq}
use redscarf_proxy.Spell.State.{Session, millisecond, spell_failed_not_ready}
use redscarf_proxy.Spell.Matching.{
  SpellRanks, pending_spell_id, answers, scan_pending, find_active_attempt_in, find_active_attempt,
  find_pending_cast_for,
}
use redscarf_proxy.Spell.Consume.{use_pending_cast, match_pet_cast_failure}
use redscarf_proxy.Spell.Queue.{
  abandon_cast, active_has, drop_held, end_active, held_has, new_attempt, trim_loop,
  trim_pending_casts,
}
use redscarf_proxy.Spell.Failure.{settle_failure}
use redscarf_proxy.Spell.Packets.{take_abandoned_cast_packets}
use redscarf_proxy.Spell.Requests.{handle_use_item, pending_of, note_request, remember_spell_visual}
use redscarf_proxy.Spell.Handlers.{SpellCast, use_item, step}
use redscarf_proxy.Spell.Retry.{RefusedBy, settle_failure-RefusedBy}
use redscarf_proxy.Tests.Casting.{
  no_ranks, request, frostbolt, bite, fresh, first_attempt, held_second, holding,
}

settle_failure-RefusedBy_example :
    RefusedBy
      (1010 * millisecond)
      first_attempt
      (settle_failure spell_failed_not_ready (1010 * millisecond) first_attempt)
settle_failure-RefusedBy_example = settle_failure-RefusedBy (1010 * millisecond) first_attempt

-- The START of a lower rank of the second cast's spell, by the player.
abbrev two_ranks : SpellRanks
two_ranks spell =
    if spell == 116
    then some (record { first = 27; rank = 2 })
    else (if spell == 205 then some (record { first = 27; rank = 1 }) else none)

abbrev lower_rank : SpellCast
lower_rank = record {
  pet_load_cooldown = false;
  caster_guid = 4;
  caster_unit = 4;
  spell_id = 205;
  cast_flags = 0;
  target = 9;
  item_caster = false;
}

abbrev aimed : Session
aimed = record fresh { pending_casts = bite ∷ record (frostbolt 1) { target_guid = 9 } ∷ [] }

abbrev with_pet : Session
with_pet = record fresh { pending_casts = frostbolt 1 ∷ bite ∷ [] }

bite_is_found : (match_pet_cast_failure 17253 with_pet).1 ≡ some bite
unfolding pending_of match_pet_cast_failure find_pending_cast_for find_active_attempt
    find_active_attempt_in scan_pending answers pending_spell_id use_pending_cast
bite_is_found = refl

-- Eight casts are pending, the first of them is the active attempt and the second is held. To use an
-- item then ends the attempt for want of room, and leaves the held cast behind.
abbrev crowded : Session
crowded = record holding {
  pending_casts = frostbolt 1 ∷ frostbolt 2 ∷ bite ∷ bite ∷ bite ∷ bite ∷ bite ∷ bite ∷ [];
}

held_without_active :
    let q = (step no_ranks (1200 * millisecond) (use_item (request 3) 77) crowded).spell_queue in
    (q.active ≡ none) × (q.held ≡ some held_second)
unfolding step handle_use_item note_request remember_spell_visual pending_of trim_pending_casts
    trim_loop abandon_cast active_has held_has drop_held end_active guid_eq
    take_abandoned_cast_packets new_attempt
held_without_active = (refl, refl)
