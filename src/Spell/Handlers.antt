-- ===== src/Spell/Handlers.antt =====
-- internal/proxy/server.go: what the 3.3.5 server's packets do to the spell queue, and the events
-- that drive it, each a function of the clock and the session.
use redscarf_proxy.Prelude.{
  ℕ, ◌==◌, if◌then◌else◌, Bool, true, false, not, ◌&&◌, ◌||◌, List, [], ◌∷◌, ◌++◌, Option, none,
  some, bit_and, ◌≤◌,
}
use redscarf_proxy.Guid.{Guid128}
use redscarf_proxy.Wire.Packet.{Packet}
use redscarf_proxy.Spell.State.{PendingCast, Session}
use redscarf_proxy.Spell.Matching.{SpellRanks, or_else, find_pending_cast_for, find_downrank_cast}
use redscarf_proxy.Spell.Consume.{use_found, match_player_cast_failure, match_pet_cast_failure}
use redscarf_proxy.Spell.Queue.{
  fail_spell_queue, mark_spell_queue_started, complete_spell_queue_cast, reset_spell_queue,
}
use redscarf_proxy.Spell.Failure.{swallow_cast_failed, retry_body, retry_spell_queue}
use redscarf_proxy.Spell.Requests.{
  Answer, written, CastRequest, handle_cast_spell, handle_use_item, handle_pet_cast,
  handle_cancel_cast,
}
use redscarf_proxy.Spell.Packets.{
  SpellFailureInfo, smsg_cast_failed, encode_cast_failed, modern_cast_guid, prepare_packet,
}

abbrev visual_or_zero : Option ℕ → ℕ
visual_or_zero none = 0
visual_or_zero (some visual) = visual

-- The CAST_FAILED that answers no pending cast.
abbrev pub unmatched_failure : Option Guid128 → SpellFailureInfo → Session → Packet
unmatched_failure none info s = record {
  opcode = smsg_cast_failed;
  body = encode_cast_failed (modern_cast_guid s.current_map_id info.spell_id info.spell_id) info 0;
}
unmatched_failure (some id) info s = record {
  opcode = smsg_cast_failed;
  body = encode_cast_failed id info (visual_or_zero (s.spell_visuals info.spell_id));
}

abbrev pub failure_answer : Option PendingCast → SpellFailureInfo → ℕ → Session → Answer
failure_answer none info now s = record {
  session = s;
  to_client = unmatched_failure (s.completed_cast_ids info.spell_id) info s ∷ [];
  to_server = none;
}
failure_answer (some p) info now s =
    let (t, held_body) = fail_spell_queue p now s in
    record {
      session = t;
      to_client =
          (if p.started then [] else prepare_packet p ∷ [])
          ++ (record {
            opcode = smsg_cast_failed;
            body = encode_cast_failed p.server_cast_id info p.visual_id;
          }
              ∷ []);
      to_server = written held_body;
    }

-- SMSG_CAST_FAILED of the 3.3.5 server. The clock is read three times: by the first test of a retired
-- failure, where the attempt is settled, and where it is sent again or ended.
unfoldable pub handle_cast_failed : SpellRanks → SpellFailureInfo → ℕ → ℕ → ℕ → Session → Answer
handle_cast_failed ranks info first settled now s =
    let (swallowed_session, swallowed) =
      swallow_cast_failed ranks info.spell_id info.reason first settled s in
    if swallowed
    then (let (t, body) = retry_body now swallowed_session in
        record { session = t; to_client = []; to_server = written body })
    else (let (t, found) = match_player_cast_failure ranks info.spell_id true swallowed_session in
        failure_answer found info now t)

abbrev pet_failure_cast : Option PendingCast → ℕ → Session → Guid128
pet_failure_cast none spell s = modern_cast_guid s.current_map_id spell spell
pet_failure_cast (some p) spell s = p.client_cast_id

-- SMSG_PET_CAST_FAILED: the identity that the client is told of.
unfoldable pub handle_pet_cast_failed : ℕ → Session → Session × Guid128
handle_pet_cast_failed spell s =
    let (t, found) = match_pet_cast_failure spell s in (t, pet_failure_cast found spell t)

-- What `resolveSpellCastLocked` reads of a SPELL_START or SPELL_GO. `item_caster` is its
-- `caster.High>>58 == 3`.
pub record SpellCast : Type 0 where
  pub pet_load_cooldown : Bool
  pub caster_guid : ℕ
  pub caster_unit : ℕ
  pub spell_id : ℕ
  pub cast_flags : ℕ
  pub target : ℕ
  pub item_caster : Bool

unfoldable pub is_player_cast : SpellCast → Session → Bool
is_player_cast cast s =
    not (s.current_character == 0)
    && (cast.caster_unit == s.current_character || cast.caster_guid == s.current_character)

-- The closure `accepts`.
unfoldable pub accepts_cast : Bool → SpellCast → Bool → PendingCast → Bool
accepts_cast player cast start p =
    if cast.pet_load_cooldown
    then false
    else (if player
        then p.pet_guid == 0
          && (if cast.item_caster
              then p.cast_item_guid == cast.caster_guid
              else p.cast_item_guid == 0 || not start && p.started)
        else not (p.pet_guid == 0)
          && p.pet_guid == cast.caster_unit
          && p.pet_guid == cast.caster_guid)

unfoldable pub matching_index : SpellRanks → SpellCast → Bool → Session → Option ℕ
matching_index ranks cast start s =
    let player = is_player_cast cast s in
    let exact = find_pending_cast_for cast.spell_id start (accepts_cast player cast start) s in
    or_else exact (
      if start && player && not cast.item_caster && bit_and cast.cast_flags 1 == 0
      then find_downrank_cast ranks cast.spell_id (some cast.target) s
      else none)

-- `usePendingCastLocked(index, cast.SpellID, start, !start)`
unfoldable pub match_spell_packet :
    SpellRanks → SpellCast → Bool → Session → Session × Option PendingCast
match_spell_packet ranks cast start s =
    use_found (matching_index ranks cast start s) cast.spell_id start (not start) s

abbrev pub advance_queue : Bool → ℕ → Session × Option PendingCast → Session × Option (List ℕ)
advance_queue start now (s, none) = (s, none)
advance_queue start now (s, some p) =
    if start then (mark_spell_queue_started p s, none) else complete_spell_queue_cast p now s

-- SPELL_START and SPELL_GO of the 3.3.5 server: the part of `forwardLegacySpell` on the queue.
unfoldable pub handle_spell_packet :
    SpellRanks → SpellCast → Bool → ℕ → Session → Session × Option (List ℕ)
handle_spell_packet ranks cast start now s =
    let (t, body) = advance_queue start now (match_spell_packet ranks cast start s) in
    (t, written body)

unfoldable pub handle_retry_timer : ℕ → ℕ → Session → Session × Option (List ℕ)
handle_retry_timer generation now s =
    let (t, body) = retry_spell_queue generation now s in (t, written body)

-- `resetCharacterSessionLocked`, on the fields of the model.
unfoldable pub reset_character_session : Session → Session
reset_character_session s =
    record (reset_spell_queue (record s { current_character = 0; pending_casts = [] })) {
      completed_cast_ids = λ k. none;
      current_map_id = 0;
    }

-- What can happen to the queue: a request of the client, a packet of the server, the end of the
-- session.
pub data Event : Type 0 where
  cast_spell : CastRequest → List ℕ → Event
  use_item pet_cast : CastRequest → ℕ → Event
  pet_cast_failed : ℕ → Event
  cancel_cast : Guid128 → ℕ → Event
  cast_failed : SpellFailureInfo → ℕ → ℕ → Event
  spell_packet : SpellCast → Bool → Event
  retry_timer : ℕ → Event
  reset : Event

-- The time of the last read of the clock in a handler that reads it first at `now`.
abbrev pub ends : ℕ → Event → ℕ
ends now (cast_failed info settled ended) = ended
ends now e = now

-- The reads of one handler are in order.
abbrev pub InTurn : ℕ → Event → Type 0
InTurn now (cast_failed info settled ended) = (now ≤ settled) × (settled ≤ ended)
InTurn now e = Unit {0}

unfoldable pub step : SpellRanks → ℕ → Event → Session → Session
step ranks now (cast_spell request body) s = (handle_cast_spell request body now s).session
step ranks now (use_item request item) s = (handle_use_item request item s).0
step ranks now (pet_cast request pet) s = (handle_pet_cast request pet s).0
step ranks now (pet_cast_failed spell) s = (handle_pet_cast_failed spell s).0
step ranks now (cancel_cast id spell) s = (handle_cancel_cast id spell s).0.session
step ranks now (cast_failed info settled ended) s =
    (handle_cast_failed ranks info now settled ended s).session
step ranks now (spell_packet cast start) s = (handle_spell_packet ranks cast start now s).0
step ranks now (retry_timer generation) s = (handle_retry_timer generation now s).0
step ranks now reset s = reset_character_session s

-- A history of events with the time of each.
unfoldable pub run : SpellRanks → List (ℕ × Event) → Session → Session
run ranks [] s = s
run ranks ((now, e) ∷ es) s = run ranks es (step ranks now e s)
