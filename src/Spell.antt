-- ===== src/Spell.antt =====
-- The spell queue of the proxy.
pub mod State
pub mod Pending
pub mod Matching
pub mod Consume
pub mod Queue
pub mod Failure
pub mod Packets
pub mod Requests
pub mod Handlers
pub mod Sound
pub mod History
pub mod Retry
pub mod Held
pub mod Release
pub mod Run
pub mod Told
pub mod Promote
pub mod Conserve
pub mod Answers
pub mod Binding
