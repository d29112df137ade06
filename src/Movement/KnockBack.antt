-- ===== src/Movement/KnockBack.antt =====
-- internal/modernworld/knockback.go: the knock-backs of the 3.3.5 server. An error of a reader is `none`.
use redscarf_proxy.Prelude.{ℕ, bit_or, List, [], ◌∷◌, Option}
use redscarf_proxy.Guid.{Guid128}
use redscarf_proxy.Wire.Bytes.{le_bytes}
use redscarf_proxy.Wire.Packed.{append_packed_guid128}
use redscarf_proxy.Wire.Reader.{pure, ◌>>=◌, u32, packed_guid, floats4}
use redscarf_proxy.Wire.Reader.Written.{concat}
use redscarf_proxy.Update.Movement.{Movement, move_falling}
use redscarf_proxy.Movement.{read_body}
use redscarf_proxy.Movement.Legacy.{movement_info, floats4_bytes}

-- `push` is the direction, X then Y, the horizontal speed and the vertical speed.
pub record KnockBack : Type 0 where
  pub guid : ℕ
  pub counter : ℕ
  pub push : ℕ × ℕ × ℕ × ℕ

unfoldable pub parse_legacy_knock_back : List ℕ → Option KnockBack
parse_legacy_knock_back = read_body (do
  guid ← packed_guid
  counter ← u32
  push ← floats4
  pure (record { guid = guid; counter = counter; push = push }))

unfoldable pub encode_modern_knock_back : KnockBack → Guid128 → List ℕ
encode_modern_knock_back k guid =
    concat (append_packed_guid128 [] guid ∷ le_bytes 4 k.counter ∷ floats4_bytes k.push ∷ [])

-- On the wire the sine, the cosine and the horizontal speed stand before the velocity.
unfoldable pub pushed : Movement → ℕ × ℕ × ℕ × ℕ → Movement
pushed move (sin, cos, speed, velocity) = record move {
  jump = (velocity, sin, cos, speed);
  move_flags = bit_or move.move_flags move_falling;
}

unfoldable pub parse_legacy_knock_back_update : (ℕ → ℕ) → List ℕ → Option (ℕ × Movement)
parse_legacy_knock_back_update clamp = read_body (do
  guid ← packed_guid
  move ← movement_info clamp
  push ← floats4
  pure (guid, pushed move push))
