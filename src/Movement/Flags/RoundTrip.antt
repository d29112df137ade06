-- ===== src/Movement/Flags/RoundTrip.antt =====
-- What a 3.3.5 server reads from an acknowledgement of internal/modernworld/movement_flags.go.
use redscarf_proxy.Prelude.{
  ℕ, ◌<◌, ◌^◌, ◌≡◌, ◌≢◌, refl, arith, ◌==◌, false, List, [], ◌++◌, append-nil, append_assoc, some,
}
use redscarf_proxy.Wire.Bytes.{le_bytes}
use redscarf_proxy.Wire.Packed.{append_legacy_packed_guid, read_packed_guid}
use redscarf_proxy.Wire.Packed.RoundTrip.{read_packed_guid-append_legacy_packed_guid}
use redscarf_proxy.Wire.Reader.{Reader, pure, ◌>>=◌, u32, packed_guid}
use redscarf_proxy.Wire.Reader.Determined.{Takes}
use redscarf_proxy.Wire.Reader.Takes.{number-then, packed-then, pure-Takes, bind-Takes}
use redscarf_proxy.Update.Movement.{Movement}
use redscarf_proxy.Movement.{PlayerMovement}
use redscarf_proxy.Movement.Legacy.{
  legacy_flags, movement_info, movement_bytes, encode_legacy_player_movement,
}
use redscarf_proxy.Movement.Legacy.RoundTrip.{
  IsMovement, seen, legacy_flags-lt, movement_info-Takes,
}
use redscarf_proxy.Movement.Flags.{encode_legacy_ack}

-- The order in which the server reads an acknowledgement: the mover, the counter, the movement.
unfoldable pub ack_reader : (ℕ → ℕ) → Reader (ℕ × ℕ × Movement)
ack_reader clamp = do
  mover ← packed_guid
  counter ← u32
  move ← movement_info clamp
  pure (mover, counter, move)

module _ (clamp : ℕ → ℕ) (narrow : (o : ℕ) → clamp o < 2 ^ 32) where
  ack_reader-Takes :
      (movement : PlayerMovement) (mover transport counter : ℕ)
      → mover < 2 ^ 64
      → transport < 2 ^ 64
      → counter < 2 ^ 32
      → movement.move.move_flags < 2 ^ 32
      → IsMovement movement.move
      → Takes
          (ack_reader clamp)
          (append_legacy_packed_guid [] mover
            ++ (le_bytes 4 counter
                ++ (movement_bytes clamp (legacy_flags movement transport) transport movement.move
                    ++ [])))
          (mover, counter, seen clamp (legacy_flags movement transport) transport movement.move)
  unfolding ack_reader
  ack_reader-Takes movement mover transport counter m t c f h = packed-then _ _ _ _ m (
      number-then _ _ _ _ _ c (
        bind-Takes _ _ _ _ _ _
          (movement_info-Takes clamp narrow (legacy_flags movement transport) transport
            movement.move (legacy_flags-lt movement transport f) t h)
          (pure-Takes _)))

  -- An acknowledgement for a mover that is not empty is sent, and read by the server as that mover,
  -- that counter and the movement with the legacy flags, with exactly the end that was given behind
  -- it. Fields have their widths.
  pub ack_reader-encode_legacy_ack :
      (movement : PlayerMovement) (mover transport counter : ℕ) (end : List ℕ)
      → mover ≢ 0
      → mover < 2 ^ 64
      → transport < 2 ^ 64
      → counter < 2 ^ 32
      → movement.move.move_flags < 2 ^ 32
      → IsMovement movement.move
      → (body : List ℕ) × (encode_legacy_ack clamp mover transport movement counter end ≡ some body)
        × (ack_reader clamp body
            ≡ some (
              (
                mover,
                counter,
                seen clamp (legacy_flags movement transport) transport movement.move,
              ),
              end,
            ))
  unfolding encode_legacy_ack encode_legacy_player_movement
  ack_reader-encode_legacy_ack movement mover transport counter end some_mover m t c f h =
      let sent : (mover == 0) ≡ false = ground arith in
      let info : List ℕ =
        movement_bytes clamp (legacy_flags movement transport) transport movement.move in
      let read = ack_reader-Takes movement mover transport counter m t c f h end in
      let skipped : read_packed_guid (append_legacy_packed_guid [] mover ++ info)
          ≡ some (mover, info) =
        read_packed_guid-append_legacy_packed_guid mover info m in
      (
        append_legacy_packed_guid [] mover ++ (le_bytes 4 counter ++ (info ++ end)),
        rw (encode_legacy_ack, encode_legacy_player_movement, sent, skipped) refl,
        rw (append-nil info, append_assoc, append_assoc) at read,
      )
