-- ===== src/LootRoll/Response.antt =====
-- internal/modernworld/loot.go and internal/proxy/server.go: what a player's answer to a roll becomes.
use redscarf_proxy.Prelude.{
  ℕ, ltb, not, ◌==◌, if◌then◌else◌, Bool, List, [], ◌∷◌, ◌++◌, Option, none, some,
}
use redscarf_proxy.Guid.{Guid128}
use redscarf_proxy.Wire.Bytes.{le_bytes}
use redscarf_proxy.Wire.Packed.{read_packed_guid128}
use redscarf_proxy.Wire.Packet.{Packet}
use redscarf_proxy.Wire.Reader.{Reader, pure, ◌>>=◌, guard, u8}
use redscarf_proxy.Movement.{read_body}
use redscarf_proxy.LootRoll.State.{LootRolls, legacy_loot_roll_request}

pub record LootRollRequest : Type 0 where
  pub loot_obj : Guid128
  pub slot : ℕ
  pub roll_type : ℕ

unfoldable pub loot_roll : Reader LootRollRequest
loot_roll = do
  object ← read_packed_guid128
  slot ← u8
  roll_type ← u8
  guard (not (ltb 3 roll_type))
      (pure (record { loot_obj = object; slot = slot; roll_type = roll_type }))

unfoldable pub parse_loot_roll : List ℕ → Option LootRollRequest
parse_loot_roll body = read_body loot_roll body

unfoldable pub encode_legacy_loot_roll : LootRollRequest → ℕ → List ℕ
encode_legacy_loot_roll request legacy_guid =
    le_bytes 8 legacy_guid ++ (le_bytes 4 request.slot ++ (request.roll_type ∷ []))

-- How the handler of CMSG_LOOT_ROLL ends: with an error, with nothing, or with a packet that is written
-- to the 3.3.5 server.
pub data LootRollOutcome : Type 0 where
  refused : LootRollOutcome
  ignored : LootRollOutcome
  forwarded : Packet → LootRollOutcome

abbrev pub answer_request : LootRollRequest → Bool → ℕ × Bool → LootRollOutcome
answer_request request connected (legacy_guid, completed) =
    if completed
    then ignored
    else (if legacy_guid == 0
        then refused
        else (if connected
            then forwarded
                (record { opcode = 0x02a0; body = encode_legacy_loot_roll request legacy_guid })
            else ignored))

-- `connected` is `session.legacyWorld != nil`. The session does not change.
unfoldable pub handle_loot_roll : List ℕ → Bool → LootRolls → LootRollOutcome
handle_loot_roll body connected s = elim (parse_loot_roll body) [
  | none ↦ refused
  | some request ↦
      answer_request request connected
        (legacy_loot_roll_request (record { object = request.loot_obj; slot = request.slot }) s)
]
