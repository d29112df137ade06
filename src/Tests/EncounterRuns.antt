-- ===== src/Tests/EncounterRuns.antt =====
-- Runs of the encounter frames of internal/modernworld/encounter_state.go and internal/proxy/encounter.go.
use redscarf_proxy.Prelude.{
  ℕ, ◌≡◌, true, false, List, [], ◌∷◌, ◌++◌, none, some, ◌==◌, if◌then◌else◌,
}
use redscarf_proxy.Guid.{Guid128, zero_guid}
use redscarf_proxy.Wire.Bytes.{le_bytes}
use redscarf_proxy.Encounter.{EncounterFrames, Resolver, flush_frames}
use redscarf_proxy.Encounter.Session.{EncounterSession}
use redscarf_proxy.Encounter.Flush.{IsSettled, flush_frames_settles}
use redscarf_proxy.Encounter.Progress.{
  Happening, unit_event, flushed, forgotten, marked, happen_all, client_takes, happen_all_takes,
}

abbrev modern_guid : ℕ → Guid128
modern_guid id = record { low = id; high = 9 }

abbrev sees_seven : Resolver
sees_seven id = if id == 7 then some (modern_guid 7) else none

abbrev two_frames : EncounterFrames
two_frames =
    (8, record { priority = 1; sent_guid = zero_guid; pending = true })
    ∷ (7, record { priority = 2; sent_guid = zero_guid; pending = true })
    ∷ []

flush_frames_settles_example :
    IsSettled sees_seven (flush_frames sees_seven two_frames).1
    × (flush_frames sees_seven (flush_frames sees_seven two_frames).1
        ≡ ([], (flush_frames sees_seven two_frames).1))
flush_frames_settles_example = flush_frames_settles sees_seven two_frames

-- The body of an event that engages, releases or ranks the unit 7.
abbrev unit_body : ℕ → List ℕ
unit_body kind = le_bytes 4 kind ++ (1 ∷ 7 ∷ 3 ∷ [])

abbrev quiet : EncounterSession
quiet = record {
  frames = [];
  in_progress = false;
  object_guids = λ id. some (modern_guid id);
  visible_objects = λ id. false;
}

abbrev fight : List Happening
fight =
    unit_event (unit_body 0)
    ∷ marked 7
    ∷ flushed
    ∷ unit_event (unit_body 2)
    ∷ forgotten 7
    ∷ unit_event (unit_body 1)
    ∷ []

happen_all_takes_example :
    client_takes quiet.in_progress (happen_all fight quiet).0
    ≡ some (happen_all fight quiet).1.in_progress
happen_all_takes_example = happen_all_takes fight quiet
