-- ===== src/Spell/Requests.antt =====
-- internal/proxy/server.go: the casts that the client asks for, CMSG_CAST_SPELL, CMSG_USE_ITEM and
-- CMSG_PET_CAST_SPELL, and CMSG_CANCEL_CAST. A handler answers with the packets for the client and
-- the CMSG_CAST_SPELL body for the 3.3.5 server, if one is written; the connection to that server is
-- up. The movement packet that may precede a body is not part of the answer.
use redscarf_proxy.Prelude.{
  ℕ, ◌+◌, ◌==◌, ◌%◌, ◌^◌, if◌then◌else◌, Bool, false, ◌||◌, List, [], ◌∷◌, ◌++◌, Option, none, some,
}
use redscarf_proxy.Guid.{Guid128}
use redscarf_proxy.Wire.Packet.{Packet}
use redscarf_proxy.Spell.State.{PendingCast, Session}
use redscarf_proxy.Spell.Queue.{trim_pending_casts, enqueue_player_cast, cancel_spell_queue}
use redscarf_proxy.Spell.Packets.{modern_cast_guid, take_abandoned_cast_packets}

pub record Answer : Type 0 where
  pub session : Session
  pub to_client : List Packet
  pub to_server : Option (List ℕ)

-- `len(body) == 0` and `body == nil` both mean that nothing is written.
abbrev pub written : Option (List ℕ) → Option (List ℕ)
written none = none
written (some []) = none
written (some (b ∷ bs)) = some (b ∷ bs)

-- What the handlers keep of a `SpellCastRequest`. The target is the 3.3.5 identity it resolves to.
pub record CastRequest : Type 0 where
  pub spell_id : ℕ
  pub cast_id : Guid128
  pub visual_id : ℕ
  pub target : ℕ

-- The pending cast of a request, by a pet or with an item where these are not 0.
unfoldable pub pending_of : CastRequest → ℕ → ℕ → ℕ → PendingCast
pending_of request pet item map_id = record {
  spell_id = request.spell_id;
  server_spell_id = 0;
  pet_guid = pet;
  cast_item_guid = item;
  target_guid = request.target;
  client_cast_id = request.cast_id;
  server_cast_id =
      modern_cast_guid map_id request.spell_id ((10000 + request.cast_id.low) % 2 ^ 64);
  visual_id = request.visual_id;
  started = false;
}

unfoldable pub remember_spell_visual : ℕ → ℕ → Session → Session
remember_spell_visual spell visual s = record s {
  spell_visuals =
      if spell == 0 || visual == 0
      then s.spell_visuals
      else (λ k. if k == spell then some visual else s.spell_visuals k);
}

-- From `trimPendingCastsLocked(8)` to `rememberSpellVisualLocked`.
unfoldable pub note_request : CastRequest → PendingCast → Session → Session
note_request request p s =
    let trimmed = trim_pending_casts 8 s in
    remember_spell_visual request.spell_id request.visual_id
      (record trimmed { pending_casts = trimmed.pending_casts ++ (p ∷ []) })

unfoldable pub handle_cast_spell : CastRequest → List ℕ → ℕ → Session → Answer
handle_cast_spell request body now s =
    let p = pending_of request 0 0 s.current_map_id in
    let (queued, forward) = enqueue_player_cast p body now (note_request request p s) in
    let (t, packets) = take_abandoned_cast_packets queued in
    record { session = t; to_client = packets; to_server = written forward }

-- CMSG_USE_ITEM and CMSG_PET_CAST_SPELL: their own packets always go to the 3.3.5 server.
unfoldable pub handle_use_item : CastRequest → ℕ → Session → Session × List Packet
handle_use_item request item s =
    take_abandoned_cast_packets
      (note_request request (pending_of request 0 item s.current_map_id) s)

unfoldable pub handle_pet_cast : CastRequest → ℕ → Session → Session × List Packet
handle_pet_cast request pet s =
    take_abandoned_cast_packets (note_request request (pending_of request pet 0 s.current_map_id) s)

-- The Boolean is whether the cancel is forwarded.
unfoldable pub handle_cancel_cast : Guid128 → ℕ → Session → Answer × Bool
handle_cancel_cast id spell s =
    let (cancelled, forward) = cancel_spell_queue id spell s in
    let (t, packets) = take_abandoned_cast_packets cancelled in
    (record { session = t; to_client = packets; to_server = none }, forward)
