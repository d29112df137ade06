-- ===== src/Tests.antt =====
-- Concrete runs of the models, and the theorems at concrete inputs.
pub mod Casting
pub mod SpellQueueRuns
pub mod SpellRetryRuns
pub mod PackedRuns
pub mod UpdateRuns
pub mod SessionRuns
pub mod WorldRuns
pub mod EncounterRuns
pub mod MovementRuns
pub mod ToldRuns
pub mod TransportRuns
pub mod TravelRuns
pub mod IdentityRuns
pub mod TaxiRuns
pub mod KeyRuns
pub mod FlightRuns
pub mod CastSpellRuns
