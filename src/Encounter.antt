-- ===== src/Encounter.antt =====
-- internal/modernworld/encounter_state.go and encounter.go: the frames of the units of an encounter.
-- The Go map of frames is a list of entries, each under its own id; what its order leaves open is
-- never sent. The visible identity of a unit is a function.
pub mod Session
pub mod Flush
pub mod Progress
use redscarf_proxy.Prelude.{
  ℕ, zero, suc, ◌+◌, ◌-◌, ◌==◌, leb, ltb, ◌&&◌, ◌||◌, if◌then◌else◌, not, Bool, true, false, List,
  [], ◌∷◌, ◌++◌, Option, none, some,
}
use redscarf_proxy.Guid.{Guid128, zero_guid, guid_eq}
use redscarf_proxy.PartyOrder.{sort}
use redscarf_proxy.Wire.Bytes.{le_bytes}
use redscarf_proxy.Wire.BitWriter.{new_bit_writer, write_bit, flush}
use redscarf_proxy.Wire.Packed.{append_packed_guid128}
use redscarf_proxy.Wire.Packet.{Packet}
use redscarf_proxy.Wire.Reader.{Reader, pure, fail, ◌>>=◌, u8, u32, packed_guid}

pub record EncounterEvent : Type 0 where
  pub kind : ℕ
  pub guid : ℕ
  pub param1 : ℕ
  pub param2 : ℕ

abbrev event : ℕ → ℕ → ℕ → ℕ → EncounterEvent
event kind guid param1 param2 = record {
  kind = kind;
  guid = guid;
  param1 = param1;
  param2 = param2;
}

unfoldable pub event_fields : ℕ → Reader EncounterEvent
event_fields kind =
    if leb kind 2
    then (do guid ← packed_guid; param1 ← u8; pure (event kind guid param1 0))
    else if kind == 3 || kind == 4 || kind == 6
    then (do param1 ← u8; pure (event kind 0 param1 0))
    else if kind == 5
    then (do param1 ← u8; param2 ← u8; pure (event kind 0 param1 param2))
    else if kind == 7
    then pure (event kind 0 0 0)
    else fail

unfoldable pub encounter_event : Reader EncounterEvent
encounter_event = do kind ← u32; event_fields kind

-- An error of any kind, trailing bytes among them, is `none`.
unfoldable pub parse_encounter_event : List ℕ → Option EncounterEvent
parse_encounter_event body = elim (encounter_event body) [
  | none ↦ none
  | some (e, []) ↦ some e
  | some (e, b ∷ bs) ↦ none
]

pub record EncounterFrame : Type 0 where
  pub priority : ℕ
  pub sent_guid : Guid128
  pub pending : Bool

abbrev pub EncounterFrames : Type 0
EncounterFrames = List (ℕ × EncounterFrame)

abbrev pub Resolver : Type 0
Resolver = ℕ → Option Guid128

abbrev no_frame : EncounterFrame
no_frame = record { priority = 0; sent_guid = zero_guid; pending = false }

unfoldable pub lookup : ℕ → EncounterFrames → Option EncounterFrame
lookup id [] = none
lookup id ((key, frame) ∷ frames) =
    let rest = lookup id frames in if key == id then some frame else rest

unfoldable pub erase : ℕ → EncounterFrames → EncounterFrames
erase id [] = []
erase id ((key, frame) ∷ frames) =
    let rest = erase id frames in if key == id then rest else (key, frame) ∷ rest

unfoldable pub store : ℕ → EncounterFrame → EncounterFrames → EncounterFrames
store id frame frames = (id, frame) ∷ erase id frames

unfoldable pub frame_or_zero : ℕ → EncounterFrames → EncounterFrame
frame_or_zero id frames = elim (lookup id frames) [ none ↦ no_frame | some frame ↦ frame ]

abbrev pub engage_unit : ℕ
engage_unit = 0x27B0

abbrev pub disengage_unit : ℕ
disengage_unit = 0x27B1

abbrev pub encounter_start : ℕ
encounter_start = 0x27B6

abbrev pub encounter_end : ℕ
encounter_end = 0x27BA

unfoldable pub encounter_frame_packet : ℕ → Guid128 → ℕ → Packet
encounter_frame_packet kind guid priority =
    let body = append_packed_guid128 [] guid in
    record {
      opcode = engage_unit + kind;
      body = if kind == 1 then body else body ++ (priority ∷ []);
    }

unfoldable pub set_all_pending : EncounterFrames → EncounterFrames
set_all_pending [] = []
set_all_pending ((id, frame) ∷ frames) =
    (id, record frame { pending = true }) ∷ set_all_pending frames

unfoldable pub hide : ℕ → EncounterFrames → EncounterFrames
hide id frames = elim (lookup id frames) [
  | none ↦ frames
  | some frame ↦ store id (record frame { pending = true }) frames
]

unfoldable pub pending_ids : EncounterFrames → List ℕ
pending_ids [] = []
pending_ids ((id, frame) ∷ frames) =
    let rest = pending_ids frames in if frame.pending then id ∷ rest else rest

unfoldable pub flush_loop : Resolver → List ℕ → EncounterFrames → List Packet × EncounterFrames
flush_loop resolve [] frames = ([], frames)
flush_loop resolve (id ∷ ids) frames = elim (resolve id) [
  | none ↦ flush_loop resolve ids frames
  | some guid ↦
      let frame = frame_or_zero id frames in
      let (packets, last) =
        flush_loop resolve ids
          (store id (record frame { pending = false; sent_guid = guid }) frames) in
      (encounter_frame_packet 0 guid frame.priority ∷ packets, last)
]

unfoldable pub flush_frames : Resolver → EncounterFrames → List Packet × EncounterFrames
flush_frames resolve frames = flush_loop resolve (sort (pending_ids frames)) frames

unfoldable pub disengage :
    EncounterEvent → Resolver → EncounterFrames → List Packet × EncounterFrames
disengage e resolve frames =
    let previous = frame_or_zero e.guid frames in
    elim (resolve e.guid) [
      | some guid ↦ (encounter_frame_packet 1 guid 0 ∷ [], erase e.guid frames)
      | none ↦
          if guid_eq previous.sent_guid zero_guid
          then ([], erase e.guid frames)
          else (encounter_frame_packet 1 previous.sent_guid 0 ∷ [], erase e.guid frames)
    ]

-- Events 0 and 2, with the frame that is in the map or the zero frame.
unfoldable pub engage : EncounterEvent → Resolver → EncounterFrames → List Packet × EncounterFrames
engage e resolve frames =
    let frame = frame_or_zero e.guid frames in
    let kind = if e.kind == 2 && frame.pending then 0 else e.kind in
    elim (resolve e.guid) [
      | none ↦ ([], store e.guid (record frame { priority = e.param1; pending = true }) frames)
      | some guid ↦ (
        encounter_frame_packet kind guid e.param1 ∷ [],
        store e.guid (record { priority = e.param1; sent_guid = guid; pending = false }) frames,
      )
    ]

unfoldable pub apply_event :
    EncounterEvent → Resolver → EncounterFrames → List Packet × EncounterFrames
apply_event e resolve frames =
    if e.kind == 7
    then flush_frames resolve (set_all_pending frames)
    else if ltb 2 e.kind
    then ([], frames)
    else if e.kind == 1
    then disengage e resolve frames
    else elim (lookup e.guid frames) [
      | none ↦ if e.kind == 2 then ([], frames) else engage e resolve frames
      | some frame ↦ engage e resolve frames
    ]

unfoldable pub counter_opcode : ℕ → ℕ
counter_opcode kind =
    if kind == 3
    then 0x27B3
    else if kind == 4
    then 0x27B4
    else if kind == 5
    then 0x27B9
    else if kind == 6
    then 0x27B5
    else 0

unfoldable pub encode_encounter_counter : EncounterEvent → Packet
encode_encounter_counter e = record {
  opcode = counter_opcode e.kind;
  body = if e.kind == 5 then le_bytes 4 e.param1 ++ le_bytes 4 e.param2 else le_bytes 4 e.param1;
}

abbrev zeros16 : List ℕ
zeros16 = 0 ∷ 0 ∷ 0 ∷ 0 ∷ 0 ∷ 0 ∷ 0 ∷ 0 ∷ 0 ∷ 0 ∷ 0 ∷ 0 ∷ 0 ∷ 0 ∷ 0 ∷ 0 ∷ []

unfoldable pub encode_instance_encounter_start : Bool → List ℕ
encode_instance_encounter_start in_progress =
    (flush (write_bit in_progress (new_bit_writer zeros16))).bytes

unfoldable pub translate_encounter_unit : List ℕ → Option (ℕ → Guid128) → Option Packet
translate_encounter_unit body resolver = elim (parse_encounter_event body) [
  | none ↦ none
  | some e ↦
      if leb 3 e.kind && leb e.kind 6
      then some (encode_encounter_counter e)
      else if e.kind == 7
      then none
      else elim resolver [
        | none ↦ none
        | some resolve ↦
            if guid_eq (resolve e.guid) zero_guid
            then none
            else some (encounter_frame_packet e.kind (resolve e.guid) e.param1)
      ]
]
