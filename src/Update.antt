-- ===== src/Update.antt =====
-- The 3.3.5 update objects of internal/modernworld/update_object.go.
pub mod Movement
pub mod Spline
pub mod Living
pub mod Objects
pub mod Determined
pub mod Framing
pub mod Values
