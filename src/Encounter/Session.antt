-- ===== src/Encounter/Session.antt =====
-- The encounter state of a session: internal/proxy/encounter.go and the handlers of
-- internal/proxy/server.go that change it. `objectGUIDs` and `visibleObjectGUIDs` are functions.
use redscarf_proxy.Prelude.{
  ℕ, ◌==◌, leb, ◌&&◌, if◌then◌else◌, not, Bool, true, false, List, [], ◌∷◌, ◌++◌, Option, none,
  some,
}
use redscarf_proxy.Guid.{Guid128}
use redscarf_proxy.Wire.Packet.{Packet}
use redscarf_proxy.Encounter.{
  EncounterFrames, hide, flush_frames, apply_event, parse_encounter_event, translate_encounter_unit,
  encode_instance_encounter_start, engage_unit, disengage_unit, encounter_start, encounter_end,
}

pub record EncounterSession : Type 0 where
  pub frames : EncounterFrames
  pub in_progress : Bool
  pub object_guids : ℕ → Option Guid128
  pub visible_objects : ℕ → Bool

unfoldable pub visible_encounter_guid : EncounterSession → ℕ → Option Guid128
visible_encounter_guid s id = if s.visible_objects id then s.object_guids id else none

abbrev no_frames : EncounterFrames → Bool
no_frames [] = true
no_frames (entry ∷ entries) = false

-- One round of the loop of `wrapEncounterPacketsLocked`: the packets that go out and whether the
-- encounter is then in progress.
unfoldable pub wrap_packet : EncounterFrames → Packet → Bool → List Packet × Bool
wrap_packet frames packet in_progress =
    let starts = packet.opcode == engage_unit && not in_progress in
    let running = if starts then true else in_progress in
    let ends = packet.opcode == disengage_unit && no_frames frames && running in
    let start : Packet = record {
      opcode = encounter_start;
      body = encode_instance_encounter_start true;
    } in
    let end : Packet = record { opcode = encounter_end; body = [] } in
    (
      (if starts then start ∷ [] else []) ++ (packet ∷ []) ++ (if ends then end ∷ [] else []),
      if ends then false else running,
    )

unfoldable pub wrap_loop : EncounterFrames → List Packet → Bool → List Packet × Bool
wrap_loop frames [] in_progress = ([], in_progress)
wrap_loop frames (packet ∷ packets) in_progress =
    let (first, running) = wrap_packet frames packet in_progress in
    let (rest, last) = wrap_loop frames packets running in (first ++ rest, last)

unfoldable pub wrap_encounter_packets :
    List Packet → EncounterSession → List Packet × EncounterSession
wrap_encounter_packets packets s =
    let (out, in_progress) = wrap_loop s.frames packets s.in_progress in
    (out, record s { in_progress = in_progress })

unfoldable pub flush_encounter_frames : EncounterSession → List Packet × EncounterSession
flush_encounter_frames s =
    let (packets, frames) = flush_frames (visible_encounter_guid s) s.frames in
    wrap_encounter_packets packets (record s { frames = frames })

-- SMSG_UPDATE_INSTANCE_ENCOUNTER_UNIT. A body that is not read changes nothing; the frames have
-- changed when the translation of a counter fails.
unfoldable pub update_encounter_unit : List ℕ → EncounterSession → List Packet × EncounterSession
update_encounter_unit body s = elim (parse_encounter_event body) [
  | none ↦ ([], s)
  | some e ↦
      let (packets, frames) = apply_event e (visible_encounter_guid s) s.frames in
      let applied = record s { frames = frames } in
      if leb 3 e.kind && leb e.kind 6
      then elim (translate_encounter_unit body none) [
        | none ↦ ([], applied)
        | some packet ↦ wrap_encounter_packets (packets ++ (packet ∷ [])) applied
      ]
      else wrap_encounter_packets packets applied
]

unfoldable pub forget_object_visible : ℕ → EncounterSession → EncounterSession
forget_object_visible id s = record s {
  frames = hide id s.frames;
  visible_objects = λ other. if other == id then false else s.visible_objects other;
}

unfoldable pub mark_object_visible : ℕ → EncounterSession → EncounterSession
mark_object_visible id s = record s {
  visible_objects = λ other. if other == id then true else s.visible_objects other;
}

unfoldable pub reset_world_objects : EncounterSession → EncounterSession
reset_world_objects s = record {
  frames = [];
  in_progress = false;
  object_guids = λ id. none;
  visible_objects = λ id. false;
}
