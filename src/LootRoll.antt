-- ===== src/LootRoll.antt =====
-- internal/proxy/loot_roll.go and the loot rolls of internal/proxy/server.go: the open rolls of a
-- session and the last ones that were completed. The map of open rolls is an association list.
pub mod State
pub mod Response
pub mod Bounds
pub mod Closed
