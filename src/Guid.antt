-- ===== src/Guid.antt =====
-- internal/modernworld/object_removal.go: the modern 128-bit object and cast identity.
use redscarf_proxy.Prelude.{ℕ, ◌≡◌, ◌↔◌, refl, arith, Bool, true, ◌&&◌, ◌==◌}

pub record Guid128 : Type 0 where
  pub low : ℕ
  pub high : ℕ

-- `GUID128{}`
abbrev pub zero_guid : Guid128
zero_guid = record { low = 0; high = 0 }

-- Go's `==` on the struct.
unfoldable pub guid_eq : Guid128 → Guid128 → Bool
guid_eq a b = a.low == b.low && a.high == b.high

pub guid_eq_iff : (a b : Guid128) → (guid_eq a b ≡ true) ↔ (a ≡ b)
unfolding guid_eq
guid_eq_iff a b = ground arith

pub guid_eq_refl : (a : Guid128) → guid_eq a a ≡ true
guid_eq_refl a = (guid_eq_iff a a).1 refl

pub guid_eq→eq : (a b : Guid128) → guid_eq a b ≡ true → a ≡ b
guid_eq→eq a b = (guid_eq_iff a b).0
