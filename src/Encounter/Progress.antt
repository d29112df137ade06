-- ===== src/Encounter/Progress.antt =====
-- The order of the packets of an encounter that a session sends (internal/proxy/encounter.go).
use redscarf_proxy.Prelude.{
  ℕ, ◌≤◌, ◌==◌, leb, ltb, ◌||◌, ◌&&◌, ◌≡◌, refl, ◌∙◌, arith, if◌then◌else◌, Bool, true, false, List,
  [], ◌∷◌, ◌++◌, Option, none, some, All, All-append, inl, inr, Bool-cases, Option-cases,
}
use redscarf_proxy.Guid.{Guid128, zero_guid, guid_eq}
use redscarf_proxy.Wire.Packet.{Packet}
use redscarf_proxy.Encounter.{
  EncounterEvent, EncounterFrames, Resolver, flush_loop, flush_frames, encounter_frame_packet,
  engage_unit, encounter_start, encounter_end, apply_event, engage, disengage, lookup,
  parse_encounter_event, translate_encounter_unit, encode_encounter_counter, counter_opcode,
  frame_or_zero, erase,
}
use redscarf_proxy.Encounter.Session.{
  EncounterSession, wrap_packet, wrap_loop, wrap_encounter_packets, flush_encounter_frames,
  update_encounter_unit, forget_object_visible, mark_object_visible, visible_encounter_guid,
}

-- What the client takes next, `on` telling whether an encounter is in progress: a start only when none
-- is, an end and an engaged unit only when one is.
unfoldable pub client_step : Bool → Packet → Option Bool
client_step on p =
    if p.opcode == encounter_start
    then (if on then none else some true)
    else if p.opcode == encounter_end
    then (if on then some false else none)
    else if p.opcode == engage_unit
    then (if on then some true else none)
    else some on

unfoldable pub client_takes : Bool → List Packet → Option Bool
client_takes on [] = some on
client_takes on (p ∷ ps) = elim (client_step on p) [
  | none ↦ none
  | some next ↦ client_takes next ps
]

client_takes-append :
    (on next : Bool) (xs ys : List Packet)
    → client_takes on xs ≡ some next
    → client_takes on (xs ++ ys) ≡ client_takes next ys
unfolding client_takes
client_takes-append on next [] ys e = ground arith
client_takes-append on next (x ∷ xs) ys e = elim (Option-cases (client_step on x)) [
  | inl h ↦ absurd (ground arith)
  | inr (mid, h) ↦ rw (client_takes, h) (client_takes-append mid next xs ys (ground arith))
]

-- Neither a start nor an end.
abbrev IsUnit : Packet → Type 0
IsUnit p = (p.opcode == encounter_start || p.opcode == encounter_end) ≡ false

wrap_packet-taken :
    (frames : EncounterFrames) (p : Packet) (on : Bool)
    → IsUnit p
    → client_takes on (wrap_packet frames p on).0 ≡ some (wrap_packet frames p on).1
unfolding wrap_packet client_takes client_step
wrap_packet-taken [] p true h = ground arith
wrap_packet-taken [] p false h = ground arith
wrap_packet-taken (entry ∷ frames) p true h = ground arith
wrap_packet-taken (entry ∷ frames) p false h = ground arith

wrap_loop-taken :
    (frames : EncounterFrames) (ps : List Packet) (on : Bool)
    → All IsUnit ps
    → client_takes on (wrap_loop frames ps on).0 ≡ some (wrap_loop frames ps on).1
unfolding wrap_loop client_takes
wrap_loop-taken frames [] on h = refl
wrap_loop-taken frames (p ∷ ps) on h =
    client_takes-append on (wrap_packet frames p on).1 (wrap_packet frames p on).0 _
      (wrap_packet-taken frames p on h.0)
    ∙ wrap_loop-taken frames ps (wrap_packet frames p on).1 h.1

frame_packet-IsUnit :
    (kind : ℕ) (guid : Guid128) (priority : ℕ)
    → kind ≤ 2
    → IsUnit (encounter_frame_packet kind guid priority)
unfolding encounter_frame_packet
frame_packet-IsUnit kind guid priority h = ground arith

flush_loop-IsUnit :
    (resolve : Resolver) (ids : List ℕ) (frames : EncounterFrames)
    → All IsUnit (flush_loop resolve ids frames).0
unfolding flush_loop
flush_loop-IsUnit resolve [] frames = tt
flush_loop-IsUnit resolve (id ∷ ids) frames = elim (Option-cases (resolve id)) [
  | inl h ↦ rw (flush_loop, h) (flush_loop-IsUnit resolve ids frames)
  | inr (guid, h) ↦
      rw (flush_loop, h)
        (frame_packet-IsUnit 0 guid _ (omega arith), flush_loop-IsUnit resolve ids _)
]

engage-IsUnit :
    (e : EncounterEvent) (resolve : Resolver) (frames : EncounterFrames)
    → e.kind ≤ 2
    → All IsUnit (engage e resolve frames).0
unfolding engage
engage-IsUnit e resolve frames h = elim (Option-cases (resolve e.guid)) [
  | inl hidden ↦ rw (engage, hidden) tt
  | inr (guid, shown) ↦ rw (engage, shown) (frame_packet-IsUnit _ guid e.param1 (ground arith), tt)
]

disengage-IsUnit :
    (e : EncounterEvent) (resolve : Resolver) (frames : EncounterFrames)
    → All IsUnit (disengage e resolve frames).0
unfolding disengage
disengage-IsUnit e resolve frames = elim (Option-cases (resolve e.guid)) [
  | inr (guid, shown) ↦ rw (disengage, shown) (frame_packet-IsUnit 1 guid 0 (omega arith), tt)
  | inl hidden ↦
      rw (disengage, hidden)
        (last_sent (guid_eq (frame_or_zero e.guid frames).sent_guid zero_guid)
          (frame_or_zero e.guid frames).sent_guid)
]
  where
    last_sent :
        (never : Bool) (guid : Guid128)
        → All IsUnit
            (if◌then◌else◌ {A = List Packet × EncounterFrames} never
              ([], erase e.guid frames)
              (encounter_frame_packet 1 guid 0 ∷ [], erase e.guid frames)).0
    last_sent true guid = tt
    last_sent false guid = (frame_packet-IsUnit 1 guid 0 (omega arith), tt)

apply_event-IsUnit :
    (e : EncounterEvent) (resolve : Resolver) (frames : EncounterFrames)
    → All IsUnit (apply_event e resolve frames).0
unfolding apply_event flush_frames
apply_event-IsUnit e resolve frames = elim (Bool-cases (e.kind == 7)) [
  | inl refresh ↦ rw (apply_event, refresh) (flush_loop-IsUnit resolve _ _)
  | inr other ↦ elim (Bool-cases (ltb 2 e.kind)) [
    | inl counter ↦ rw (apply_event, other, counter) tt
    | inr unit ↦ elim (Bool-cases (e.kind == 1)) [
      | inl gone ↦ rw (apply_event, other, unit, gone) (disengage-IsUnit e resolve frames)
      | inr stays ↦ elim (Option-cases (lookup e.guid frames)) [
        | inr (frame, known) ↦
            rw (apply_event, other, unit, stays, known)
              (engage-IsUnit e resolve frames (ground arith))
        | inl unknown ↦ elim (Bool-cases (e.kind == 2)) [
          | inl change ↦ rw (apply_event, other, unit, stays, unknown, change) tt
          | inr new ↦
              rw (apply_event, other, unit, stays, unknown, new)
                (engage-IsUnit e resolve frames (ground arith))
        ]
      ]
    ]
  ]
]

counter-IsUnit :
    (e : EncounterEvent)
    → (leb 3 e.kind && leb e.kind 6) ≡ true
    → IsUnit (encode_encounter_counter e)
unfolding encode_encounter_counter counter_opcode
counter-IsUnit e h = ground arith

translated-IsUnit :
    (body : List ℕ) (e : EncounterEvent) (p : Packet)
    → parse_encounter_event body ≡ some e
    → (leb 3 e.kind && leb e.kind 6) ≡ true
    → translate_encounter_unit body none ≡ some p
    → IsUnit p
unfolding translate_encounter_unit
translated-IsUnit body e p parsed counter h =
    let same : p ≡ encode_encounter_counter e = ground arith in rw same (counter-IsUnit e counter)

abbrev IsTaken : EncounterSession → List Packet × EncounterSession → Type 0
IsTaken s out = client_takes s.in_progress out.0 ≡ some out.1.in_progress

wrap-IsTaken :
    (packets : List Packet) (frames : EncounterFrames) (s : EncounterSession)
    → All IsUnit packets
    → IsTaken s (wrap_encounter_packets packets (record s { frames = frames }))
unfolding wrap_encounter_packets
wrap-IsTaken packets frames s h = wrap_loop-taken frames packets s.in_progress h

flush-IsTaken : (s : EncounterSession) → IsTaken s (flush_encounter_frames s)
unfolding flush_encounter_frames flush_frames
flush-IsTaken s = wrap-IsTaken _ _ s (flush_loop-IsUnit (visible_encounter_guid s) _ s.frames)

update-IsTaken : (body : List ℕ) (s : EncounterSession) → IsTaken s (update_encounter_unit body s)
unfolding update_encounter_unit client_takes
update-IsTaken body s = elim (Option-cases (parse_encounter_event body)) [
  | inl unread ↦ rw (update_encounter_unit, unread) refl
  | inr (e, parsed) ↦
      let units : All IsUnit (apply_event e (visible_encounter_guid s) s.frames).0 =
        apply_event-IsUnit e (visible_encounter_guid s) s.frames in
      let frames : EncounterFrames = (apply_event e (visible_encounter_guid s) s.frames).1 in
      elim (Bool-cases (leb 3 e.kind && leb e.kind 6)) [
        | inr frame ↦ rw (update_encounter_unit, parsed, frame) (wrap-IsTaken _ frames s units)
        | inl counter ↦ elim (Option-cases (translate_encounter_unit body none)) [
          | inl refused ↦ rw (update_encounter_unit, parsed, counter, refused) refl
          | inr (p, translated) ↦
              rw (update_encounter_unit, parsed, counter, translated)
                (wrap-IsTaken _ frames s (
                  All-append IsUnit _ (p ∷ []) units
                    (translated-IsUnit body e p parsed counter translated, tt)))
        ]
      ]
]

-- What happens to a session between two changes of the map.
pub data Happening : Type 0 where
  unit_event : List ℕ → Happening
  flushed : Happening
  forgotten : ℕ → Happening
  marked : ℕ → Happening

unfoldable pub happen : Happening → EncounterSession → List Packet × EncounterSession
happen (unit_event body) s = update_encounter_unit body s
happen flushed s = flush_encounter_frames s
happen (forgotten id) s = ([], forget_object_visible id s)
happen (marked id) s = ([], mark_object_visible id s)

unfoldable pub happen_all : List Happening → EncounterSession → List Packet × EncounterSession
happen_all [] s = ([], s)
happen_all (h ∷ hs) s =
    let (packets, next) = happen h s in
    let (more, last) = happen_all hs next in (packets ++ more, last)

happen-IsTaken : (h : Happening) (s : EncounterSession) → IsTaken s (happen h s)
unfolding happen client_takes forget_object_visible mark_object_visible
happen-IsTaken (unit_event body) s = update-IsTaken body s
happen-IsTaken flushed s = flush-IsTaken s
happen-IsTaken (forgotten id) s = refl
happen-IsTaken (marked id) s = refl

-- Whatever bodies arrive, and whatever units appear and disappear, the client is told of the start of
-- an encounter only while none is in progress, of its end and of an engaged unit only while one is, and
-- what it then takes to be in progress is what the session holds.
pub happen_all_takes :
    (hs : List Happening) (s : EncounterSession)
    → client_takes s.in_progress (happen_all hs s).0 ≡ some (happen_all hs s).1.in_progress
unfolding happen_all client_takes
happen_all_takes [] s = refl
happen_all_takes (h ∷ hs) s =
    client_takes-append s.in_progress (happen h s).1.in_progress (happen h s).0 _
      (happen-IsTaken h s)
    ∙ happen_all_takes hs (happen h s).1
