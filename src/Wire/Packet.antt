-- ===== src/Wire/Packet.antt =====
-- `Packet` of internal/modernworld/world.go.
use redscarf_proxy.Prelude.{ℕ, List}

pub record Packet : Type 0 where
  pub opcode : ℕ
  pub body : List ℕ
