-- ===== src/Tests/SessionRuns.antt =====
-- Loot rolls, the order of parties and of values, the packet history and merged update bodies on concrete inputs.
use redscarf_proxy.Prelude.{
  ℕ, ◌≡◌, refl, arith, true, if◌then◌else◌, List, [], ◌∷◌, ◌++◌, none, some,
}
use redscarf_proxy.Guid.{Guid128, guid_eq}
use redscarf_proxy.Wire.Bytes.{le_bytes, le_value}
use redscarf_proxy.Wire.PacketHistory.{
  HistoryRecord, PacketHistory, hex_length, new_record, record_packet, total, IsBounded, DroppedFor,
  record_packet-IsBounded,
}
use redscarf_proxy.Wire.Batch.{join, total_size, encode_update_objects, merge_update_object_bodies}
use redscarf_proxy.Wire.Batch.Merge.{single_bodies, merge_update_object_bodies-single_bodies}
use redscarf_proxy.Wire.ValuesOrder.{interleaved_order, delta_order, unit_delta_order}
use redscarf_proxy.PartyOrder.{
  PartyOrderKey, PartyOrders, contains, insert, sort, add_newcomers, only_present, new_history,
  same_group, stable_party_order,
}
use redscarf_proxy.PartyOrder.Stable.{contains-stable_party_order}
use redscarf_proxy.LootRoll.State.{
  LootRollKey, LootRollReference, LootRolls, key_eq, identity_eq, identity_of, resolve_loot_roll,
  only_match, complete_loot_roll,
}
use redscarf_proxy.Movement.{read_body}
use redscarf_proxy.Wire.Reader.{◌>>=◌, number, take_bytes, pure, guard}
use redscarf_proxy.Wire.Packed.{read_packed_guid128, unpack_loop}
use redscarf_proxy.LootRoll.Response.{loot_roll, parse_loot_roll, handle_loot_roll, ignored}
use redscarf_proxy.LootRoll.Closed.{
  RollEvent, announced, completes, roll_run, completions, complete_loot_roll_closes,
}

abbrev sword : LootRollKey
sword = record { slot = 1; item_id = 17182; suffix = 0; property = 0 }

abbrev corpse : ℕ → Guid128
corpse n = record { low = n; high = 8 }

abbrev roll_on : ℕ → LootRollReference
roll_on n = record { legacy_guid = n; modern_guid = corpse n; item_key = sword }

-- Two corpses have dropped the same item.
abbrev two_rolls : LootRolls
two_rolls = record {
  open_rolls = (identity_of (roll_on 5), roll_on 5) ∷ (identity_of (roll_on 6), roll_on 6) ∷ [];
  completed = [];
}

ambiguous : (resolve_loot_roll corpse sword 0 two_rolls).1 ≡ none
unfolding resolve_loot_roll only_match key_eq
ambiguous = refl

-- Another roll is announced and completed before the answer arrives.
abbrev since : List RollEvent
since = announced sword 6 ∷ completes (roll_on 6) ∷ []

-- The corpse as a packed identity, the slot and a roll of need.
abbrev late_answer : List ℕ
late_answer = 1 ∷ 1 ∷ 5 ∷ 8 ∷ 1 ∷ 1 ∷ []

late_answer_reads :
    parse_loot_roll late_answer ≡ some (record { loot_obj = corpse 5; slot = 1; roll_type = 1 })
unfolding parse_loot_roll read_body loot_roll ◌>>=◌ read_packed_guid128 unpack_loop number
    take_bytes pure guard le_value
late_answer_reads = refl

complete_loot_roll_closes_example :
    handle_loot_roll late_answer true
      (roll_run corpse since (complete_loot_roll (roll_on 5) two_rolls))
    ≡ ignored
unfolding completions identity_eq guid_eq
complete_loot_roll_closes_example =
    complete_loot_roll_closes corpse (roll_on 5) since late_answer true
      (record { loot_obj = corpse 5; slot = 1; roll_type = 1 }) two_rolls (omega arith) (refl, tt)
      late_answer_reads refl refl

abbrev one_packet : PacketHistory
one_packet = record {
  records =
      record { sequence = 1; time = 10; opcode = 10187; body_length = 2; hex = 3 ∷ 4 ∷ [] } ∷ [];
  size = 4;
  sequence = 1;
}

one_packet-IsBounded : IsBounded one_packet
unfolding total hex_length
one_packet-IsBounded = record { measured = refl; few = omega arith; small = omega arith }

record_packet-IsBounded_example :
    IsBounded (record_packet 20 11744 (9 ∷ []) one_packet)
    × ((dropped kept : List HistoryRecord) × (one_packet.records ≡ dropped ++ kept)
        × DroppedFor (hex_length (new_record 20 11744 (9 ∷ []) one_packet)) dropped kept
        × ((record_packet 20 11744 (9 ∷ []) one_packet).records
            ≡ kept ++ (new_record 20 11744 (9 ∷ []) one_packet ∷ [])))
record_packet-IsBounded_example =
    record_packet-IsBounded 20 11744 (9 ∷ []) one_packet one_packet-IsBounded

merge_update_object_bodies-single_bodies_example :
    merge_update_object_bodies 571 (single_bodies 571 ((1 ∷ 2 ∷ []) ∷ (3 ∷ []) ∷ []))
    ≡ some (2 ∷ 0 ∷ 0 ∷ 0 ∷ 59 ∷ 2 ∷ 0 ∷ 3 ∷ 0 ∷ 0 ∷ 0 ∷ 1 ∷ 2 ∷ 3 ∷ [])
unfolding encode_update_objects le_bytes total_size join
merge_update_object_bodies-single_bodies_example =
    merge_update_object_bodies-single_bodies 571 ((1 ∷ 2 ∷ []) ∷ (3 ∷ []) ∷ []) (omega arith)
      (unfold total_size in omega arith)

abbrev raid : PartyOrderKey
raid = record { realm = 1; group = 40 }

-- Member 9 has joined first; 3 is absent now.
abbrev raid_orders : PartyOrders
raid_orders k = if same_group k raid then 9 ∷ 3 ∷ [] else []

raid_order : (stable_party_order raid 5 (7 ∷ 5 ∷ 9 ∷ []) raid_orders).1 ≡ 9 ∷ 5 ∷ 7 ∷ []
unfolding stable_party_order new_history only_present add_newcomers sort insert contains same_group
raid_order = refl

contains-stable_party_order_example :
    contains 3 (stable_party_order raid 5 (7 ∷ 5 ∷ 9 ∷ []) raid_orders).1
    ≡ contains 3 (7 ∷ 5 ∷ 9 ∷ [])
contains-stable_party_order_example =
    contains-stable_party_order 3 raid 5 (7 ∷ 5 ∷ 9 ∷ []) raid_orders

-- The second power of a unit comes after the five arrays of its first.
second_slot : unit_delta_order 118 ≡ 122
unfolding unit_delta_order delta_order interleaved_order
second_slot = refl
