-- ===== src/Tests/ToldRuns.antt =====
-- A cast that the 3.3.5 server refuses again and again (internal/proxy/spell_queue.go).
use redscarf_proxy.Prelude.{ℕ, zero, suc, ◌+◌, ◌*◌, false, List, [], ◌∷◌, none}
use redscarf_proxy.Spell.State.{PendingCast, Attempt, Session, millisecond, spell_failed_not_ready}
use redscarf_proxy.Spell.Matching.{SpellRanks}
use redscarf_proxy.Spell.Queue.{new_attempt}
use redscarf_proxy.Spell.Packets.{SpellFailureInfo, minus_one}

abbrev no_ranks : SpellRanks
no_ranks spell = none

abbrev frostbolt : PendingCast
frostbolt = record {
  spell_id = 116;
  server_spell_id = 0;
  pet_guid = 0;
  cast_item_guid = 0;
  target_guid = 0;
  client_cast_id = record { low = 1; high = 1 };
  server_cast_id = record { low = 2; high = 1 };
  visual_id = 0;
  started = false;
}

abbrev attempt : Attempt
attempt = new_attempt 7 116 (record { low = 1; high = 1 }) (116 ∷ []) (1000 * millisecond)

abbrev waiting : Session
waiting = record {
  spell_queue = record {
    active = none;
    held = none;
    generation = 7;
    retired_spell_id = 0;
    retired_generation = 0;
    stale_until = 0;
    stale_spell_id = 0;
    abandoned = [];
    manual_retry = false;
  };
  pending_casts = frostbolt ∷ [];
  completed_cast_ids = λ spell. none;
  spell_visuals = λ spell. none;
  current_map_id = 0;
  current_character = 4;
}

abbrev refusal_info : SpellFailureInfo
refusal_info = record {
  spell_id = 116;
  reason = spell_failed_not_ready;
  arg1 = minus_one;
  arg2 = minus_one;
}

-- An answer every 60 ms.
abbrev each_60_ms : ℕ → ℕ → List ℕ
each_60_ms zero start = []
each_60_ms (suc n) start = start ∷ each_60_ms n (start + 60 * millisecond)

abbrev answers_of_server : List ℕ
answers_of_server = each_60_ms 31 (1010 * millisecond)
