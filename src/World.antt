-- ===== src/World.antt =====
-- The connection of internal/modernworld/world.go to the 3.4.3 client.
pub mod WriteAll
pub mod Connection
pub mod Auth
pub mod Keys
pub mod Handshake
