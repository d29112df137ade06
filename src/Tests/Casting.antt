-- ===== src/Tests/Casting.antt =====
-- Casts, attempts and sessions for the runs of the spell queue of internal/proxy.
use redscarf_proxy.Prelude.{ℕ, ◌*◌, true, false, List, [], ◌∷◌, some, none}
use redscarf_proxy.Guid.{Guid128}
use redscarf_proxy.Spell.State.{
  PendingCast, Attempt, HeldCast, SpellQueue, Session, millisecond, spell_failed_not_ready,
}
use redscarf_proxy.Spell.Matching.{SpellRanks}
use redscarf_proxy.Spell.Queue.{new_attempt}
use redscarf_proxy.Spell.Packets.{SpellFailureInfo, minus_one}
use redscarf_proxy.Spell.Requests.{CastRequest, pending_of}
use redscarf_proxy.Spell.Handlers.{Event, cast_spell, cast_failed}

abbrev pub no_ranks : SpellRanks
no_ranks spell = none

abbrev pub client_id : ℕ → Guid128
client_id n = record { low = n; high = 1 }

abbrev pub request : ℕ → CastRequest
request n = record { spell_id = 116; cast_id = client_id n; visual_id = 0; target = 0 }

abbrev pub frostbolt : ℕ → PendingCast
frostbolt n = pending_of (request n) 0 0 0

abbrev pub bite : PendingCast
bite = record (frostbolt 9) { spell_id = 17253; pet_guid = 0xf140 }

abbrev pub quiet : SpellQueue
quiet = record {
  active = none;
  held = none;
  generation = 6;
  retired_spell_id = 0;
  retired_generation = 0;
  stale_until = 0;
  stale_spell_id = 0;
  abandoned = [];
  manual_retry = false;
}

abbrev pub fresh : Session
fresh = record {
  spell_queue = quiet;
  pending_casts = [];
  completed_cast_ids = λ spell. none;
  spell_visuals = λ spell. none;
  current_map_id = 0;
  current_character = 4;
}

abbrev pub not_ready : SpellFailureInfo
not_ready = record {
  spell_id = 116;
  reason = spell_failed_not_ready;
  arg1 = minus_one;
  arg2 = minus_one;
}

-- The request of the client at 1 s, the server's NOT_READY after 10 ms, and with it the retry.
abbrev pub refused_once : List (ℕ × Event)
refused_once =
    (1000 * millisecond, cast_spell (request 1) (116 ∷ []))
    ∷ (1010 * millisecond, cast_failed not_ready (1010 * millisecond) (1010 * millisecond))
    ∷ []

abbrev pub first_attempt : Attempt
first_attempt = new_attempt 7 116 (client_id 1) (116 ∷ []) (1000 * millisecond)

abbrev pub sent_twice : Attempt
sent_twice = record first_attempt {
  retry_in_flight = true;
  last_retry_at = 1010 * millisecond;
  retry_seq = 2;
  settled_seq = 1;
}

-- The second request for the same spell, while the first is being cast.
abbrev pub held_second : HeldCast
held_second = record { spell_id = 116; client_cast_id = client_id 2; cast_body = 117 ∷ [] }

abbrev pub casting : Session
casting = record fresh {
  spell_queue = record quiet { active = some first_attempt; generation = 7 };
  pending_casts = frostbolt 1 ∷ [];
}

abbrev pub holding : Session
holding = record fresh {
  spell_queue = record quiet {
    active = some first_attempt;
    held = some held_second;
    generation = 7;
  };
  pending_casts = frostbolt 1 ∷ frostbolt 2 ∷ [];
}
