-- ===== src/TaxiSession.antt =====
-- The taxi of a session (internal/proxy/server.go): the handlers of the menu, of the server's reply and of
-- the movement packets, with the fields they keep. The sending of a packet is its place in the list of
-- packets that a handler returns. The handler of a movement gives up the session's lock while it sends, and
-- takes it again to clear the pending reply; here it is one step.
pub mod Requests
pub mod Events
pub mod Replies
pub mod Order
pub mod Answered
pub mod Flight
use redscarf_proxy.Prelude.{
  ℕ, zero, suc, ◌+◌, ◌-◌, ◌%◌, ◌^◌, ◌==◌, ◌&&◌, ◌||◌, not, leb, ltb, bit_and, if◌then◌else◌, Bool,
  true, false, List, [], ◌∷◌, ◌++◌, Option, none, some, length,
}
use redscarf_proxy.Guid.{Guid128, zero_guid}
use redscarf_proxy.Identity.{modern_guid_for_legacy}
use redscarf_proxy.Identity.Cache.{
  ObjectCache, lookup_guid, modern_guid_in, legacy_guid_for_modern, at_key,
}
use redscarf_proxy.Wire.Packet.{Packet}
use redscarf_proxy.Update.Movement.{has}
use redscarf_proxy.Movement.{encode_control_update}
use redscarf_proxy.Movement.Taxi.{
  parse_taxi_npc, parse_activate_taxi, encode_legacy_taxi_npc, encode_legacy_activate_taxi,
  encode_legacy_activate_taxi_express, parse_legacy_taxi_menu, encode_show_taxi_nodes,
  parse_legacy_taxi_node_status, encode_taxi_node_status, parse_legacy_activate_taxi_reply,
  encode_activate_taxi_reply,
}
use redscarf_proxy.TaxiRoute.Graph.{TaxiGraph}
use redscarf_proxy.TaxiRoute.Search.{TaxiRoute, taxi_route, shortest_taxi_route}
use redscarf_proxy.MonsterMove.{LegacyMonsterMove, parse_legacy_monster_move, is_legacy_taxi_flight}
use redscarf_proxy.MonsterMove.Encode.{Float32, encode_monster_move}

-- A packet with the connection it leaves by.
pub data Sent : Type 0 where
  to_realm : Packet → Sent
  to_instance : Packet → Sent
  to_server : Packet → Sent

-- `connected` is `legacyWorld != nil`; a time is in nanoseconds, and `none` is `time.Time{}`.
pub record TaxiSession : Type 0 where
  pub objects : ObjectCache
  pub connected : Bool
  pub current_taxi_node : ℕ
  pub usable_taxi_nodes : List ℕ
  pub taxi_reply_pending : Bool
  pub taxi_login_grace_until : Option ℕ

abbrev pub on_monster_move_opcode : ℕ
on_monster_move_opcode = 11732

abbrev pub control_update_opcode : ℕ
control_update_opcode = 9799

abbrev taxi_node_status_opcode : ℕ
taxi_node_status_opcode = 9852

abbrev pub activate_taxi_reply_opcode : ℕ
activate_taxi_reply_opcode = 9853

abbrev new_taxi_path_opcode : ℕ
new_taxi_path_opcode = 9854

abbrev show_taxi_nodes_opcode : ℕ
show_taxi_nodes_opcode = 9933

unfoldable pub taxi_node_status : List ℕ → TaxiSession → List Sent × TaxiSession
taxi_node_status body s = elim (parse_legacy_taxi_node_status body) [
  | none ↦ ([], s)
  | some (guid, learned) ↦ (
    to_realm (record {
      opcode = taxi_node_status_opcode;
      body = encode_taxi_node_status (modern_guid_in s.objects guid) learned;
    })
        ∷ [],
    s,
  )
]

unfoldable pub show_taxi_nodes : List ℕ → TaxiSession → List Sent × TaxiSession
show_taxi_nodes body s = elim (parse_legacy_taxi_menu body) [
  | none ↦ ([], s)
  | some menu ↦ (
    to_realm (record {
      opcode = show_taxi_nodes_opcode;
      body = encode_show_taxi_nodes menu (modern_guid_in s.objects menu.flight_master);
    })
        ∷ [],
    record s { current_taxi_node = menu.current_node; usable_taxi_nodes = menu.node_mask },
  )
]

unfoldable pub new_taxi_path : List ℕ → TaxiSession → List Sent × TaxiSession
new_taxi_path [] s = (to_realm (record { opcode = new_taxi_path_opcode; body = [] }) ∷ [], s)
new_taxi_path (b ∷ bs) s = ([], s)

abbrev pub taxi_reply : ℕ → Sent
taxi_reply reply =
    to_realm
      (record { opcode = activate_taxi_reply_opcode; body = encode_activate_taxi_reply reply })

-- A success is kept back until the spline of the flight.
unfoldable pub activate_taxi_reply : List ℕ → TaxiSession → List Sent × TaxiSession
activate_taxi_reply body s = elim (parse_legacy_activate_taxi_reply body) [
  | none ↦ ([], s)
  | some reply ↦
      if reply == 0
      then ([], record s { taxi_reply_pending = true })
      else (taxi_reply reply ∷ [], record s { taxi_reply_pending = false })
]

-- `LegacyUnitIsSwimming` of internal/modernworld/monster_move.go: bit 15 of the field 59.
unfoldable pub field : ℕ → List (ℕ × ℕ) → ℕ
field index [] = 0
field index ((key, value) ∷ fields) =
    let rest = field index fields in if key == index then value else rest

unfoldable pub legacy_unit_is_swimming : Option (List (ℕ × ℕ)) → Bool
legacy_unit_is_swimming none = false
legacy_unit_is_swimming (some fields) = has (field 59 fields) 0x00008000

-- The identity of a move's transport or target. No object and no entry is the empty identity.
unfoldable pub guid_or_empty : ObjectCache → ℕ → Guid128
guid_or_empty objects guid = elim (lookup_guid guid objects.object_guids) [
  | some modern ↦ modern
  | none ↦ if guid == 0 then zero_guid else modern_guid_for_legacy guid objects.current_map_id
]

-- `now.Before(until)`; no time is before `time.Time{}`.
unfoldable pub before : ℕ → Option ℕ → Bool
before now none = false
before now (some until) = ltb now until

unfoldable pub is_taxi_start : ℕ → LegacyMonsterMove → TaxiSession → Bool
is_taxi_start now move s =
    move.mover_guid == s.objects.current_character
    && is_legacy_taxi_flight move
    && (s.taxi_reply_pending || before now s.taxi_login_grace_until)

-- The move as it is sent: a taxi start is marked, and a swimming unit.
unfoldable pub marked_move : ℕ → LegacyMonsterMove → TaxiSession → LegacyMonsterMove
marked_move now move s = record move {
  taxi_start = is_taxi_start now move s;
  swimming = legacy_unit_is_swimming (s.objects.object_fields move.mover_guid);
}

unfoldable pub moved : ℕ → LegacyMonsterMove → TaxiSession → TaxiSession
moved now move s = record s {
  objects = record s.objects {
    object_positions = at_key move.mover_guid (some move.start) s.objects.object_positions;
  };
  taxi_login_grace_until = if is_taxi_start now move s then none else s.taxi_login_grace_until;
}

unfoldable pub stop_before : LegacyMonsterMove → LegacyMonsterMove
stop_before move = record move {
  taxi_start = false;
  spline_type = 1;
  flags = 0;
  duration = 0;
  points = [];
  packed_deltas = [];
  end = (0, 0, 0);
  spline_id = if leb 2 move.spline_id then move.spline_id - 2 else move.spline_id;
}

module _ (float : Float32) (clamp : ℕ → ℕ) where
  unfoldable pub encoded_move : LegacyMonsterMove → ObjectCache → Option (List ℕ)
  encoded_move move objects =
      encode_monster_move float clamp move (modern_guid_in objects move.mover_guid)
        (guid_or_empty objects move.transport_guid) (guid_or_empty objects move.facing_target)

  -- The rounds that are left of the loop that stops the player before the flight.
  unfoldable pub pre_splines : ℕ → LegacyMonsterMove → ObjectCache → List Sent
  pre_splines zero stop objects = []
  pre_splines (suc rounds) stop objects = elim (encoded_move stop objects) [
    | none ↦ []
    | some body ↦
        to_instance (record { opcode = on_monster_move_opcode; body = body })
        ∷ to_instance (record {
          opcode = control_update_opcode;
          body = encode_control_update (modern_guid_in objects stop.mover_guid) false;
        })
        ∷ pre_splines rounds (record stop { spline_id = (stop.spline_id + 1) % 2 ^ 32 }) objects
  ]

  unfoldable pub monster_move_sent : ℕ → LegacyMonsterMove → TaxiSession → List Sent × TaxiSession
  monster_move_sent now move s =
      let starts = is_taxi_start now move s in
      let sent = marked_move now move s in
      let stops : List Sent = if starts then pre_splines 2 (stop_before sent) s.objects else [] in
      elim (encoded_move sent s.objects) [
        | none ↦ (stops, moved now move s)
        | some body ↦
            let spline = to_instance (record { opcode = on_monster_move_opcode; body = body }) in
            if starts && s.taxi_reply_pending
            then (
              stops ++ (spline ∷ taxi_reply 0 ∷ []),
              record (moved now move s) { taxi_reply_pending = false },
            )
            else (stops ++ (spline ∷ []), moved now move s)
      ]

  unfoldable pub on_monster_move : ℕ → List ℕ → Bool → TaxiSession → List Sent × TaxiSession
  on_monster_move now body transport s = elim (parse_legacy_monster_move clamp body transport) [
    | none ↦ ([], s)
    | some move ↦ monster_move_sent now move s
  ]
