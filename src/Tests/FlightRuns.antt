-- ===== src/Tests/FlightRuns.antt =====
-- Runs of the movement of taxis of internal/modernworld and of the handlers of internal/proxy that send it.
use redscarf_proxy.Prelude.{
  ℕ, ◌+◌, ◌*◌, ◌/◌, leb, ltb, ◌≤◌, ◌≡◌, ◌≢◌, ◌↔◌, refl, arith, ap, true, false, List, [], ◌∷◌, ◌++◌,
  some, none, All, map,
}
use redscarf_proxy.Guid.{Guid128, zero_guid}
use redscarf_proxy.Wire.Bytes.{le_value}
use redscarf_proxy.Wire.Packed.{read_packed_guid, unpack_loop}
use redscarf_proxy.Wire.Reader.{
  number, pure, take_bytes, ◌>>=◌, guard, optional, replicate, floats3,
}
use redscarf_proxy.Update.Movement.{has}
use redscarf_proxy.Movement.{read_body}
use redscarf_proxy.Movement.Taxi.{parse_legacy_activate_taxi_reply}
use redscarf_proxy.Identity.Cache.{modern_guid_in, lookup_guid}
use redscarf_proxy.MonsterMove.{
  LegacyMonsterMove, new_monster_move, parse_legacy_monster_move, monster_move, facing_part,
  spline_part, path_part, is_legacy_taxi_flight,
}
use redscarf_proxy.MonsterMove.Encode.{
  Float32, encode_monster_move, modern_spline_type, sent_path, zero_vector3,
}
use redscarf_proxy.MonsterMove.Accepted.{parse-encode_monster_move}
use redscarf_proxy.TaxiSession.{
  Sent, to_realm, to_instance, to_server, TaxiSession, on_monster_move, on_monster_move_opcode,
  taxi_reply, encoded_move, marked_move, new_taxi_path, activate_taxi_reply, monster_move_sent,
  is_taxi_start, before, moved, legacy_unit_is_swimming, stop_before, pre_splines,
}
use redscarf_proxy.TaxiSession.Events.{TaxiEvent, taxi_run, reply, move, new_path, taxi_step}
use redscarf_proxy.TaxiSession.Order.{SplinesFirst, taxi_run-SplineFirst}
use redscarf_proxy.TaxiSession.Answered.{successes, waiting, all_accepts, taxi_run-paid}
use redscarf_proxy.TaxiSession.Flight.{leaves_request, taxi_is_answered}

-- Whole numbers for the floating point numbers.
abbrev whole_numbers : Float32
whole_numbers = record {
  of_uint32 = λ n. n;
  mul = λ a b. a * b;
  div = λ a b. a / b;
  le = leb;
  lt = ltb;
}

abbrev same_angle : ℕ → ℕ
same_angle angle = angle

-- The player 5 flies to one point in 1000 ms.
abbrev flight_body : List ℕ
flight_body =
    1 ∷ 5 ∷ 0 ∷ 0 ∷ 0 ∷ 0 ∷ 0 ∷ 0 ∷ 0 ∷ 0 ∷ 0 ∷ 0 ∷ 0 ∷ 0 ∷ 0 ∷ 9 ∷ 0 ∷ 0 ∷ 0 ∷ 0 ∷ 0 ∷ 48 ∷ 0 ∷ 0
    ∷ 232 ∷ 3 ∷ 0 ∷ 0 ∷ 1 ∷ 0 ∷ 0 ∷ 0 ∷ 1 ∷ 0 ∷ 0 ∷ 0 ∷ 2 ∷ 0 ∷ 0 ∷ 0 ∷ 3 ∷ 0 ∷ 0 ∷ 0 ∷ []

abbrev flight : LegacyMonsterMove
flight = record new_monster_move {
  mover_guid = 5;
  spline_id = 9;
  flags = 0x3000;
  duration = 1000;
  points = (1, 2, 3) ∷ [];
}

flight_is_parsed : parse_legacy_monster_move same_angle flight_body false ≡ some flight
unfolding parse_legacy_monster_move monster_move facing_part spline_part path_part read_body ◌>>=◌
    number take_bytes pure guard optional replicate floats3 le_value read_packed_guid unpack_loop
    has
flight_is_parsed = refl

abbrev rider : Guid128
rider = record { low = 5; high = 0x0800040000000000 }

parse-encode_monster_move_example :
    (encode_monster_move whole_numbers same_angle
        (record flight { swimming = false; taxi_start = true })
        rider
        zero_guid
        zero_guid
      ≡ none)
    ↔ (rider ≡ zero_guid)
parse-encode_monster_move_example =
    parse-encode_monster_move whole_numbers same_angle flight_body false flight false true rider
      zero_guid zero_guid flight_is_parsed

abbrev session : TaxiSession
session = record {
  objects = record {
    object_guids = (5, rider) ∷ [];
    object_types = λ guid. none;
    object_positions = λ guid. none;
    object_fields = λ guid. none;
    current_character = 5;
    current_map_id = 0;
  };
  connected = true;
  current_taxi_node = 0;
  usable_taxi_nodes = [];
  taxi_reply_pending = false;
  taxi_login_grace_until = none;
}

abbrev accepted_body : List ℕ
accepted_body = 0 ∷ 0 ∷ 0 ∷ 0 ∷ []

abbrev refused_body : List ℕ
refused_body = 3 ∷ 0 ∷ 0 ∷ 0 ∷ []

abbrev flown : List TaxiEvent
flown =
    reply accepted_body
    ∷ new_path []
    ∷ move 0 flight_body false
    ∷ move 1 flight_body false
    ∷ reply refused_body
    ∷ []

abbrev opcode_of : Sent → ℕ
opcode_of (to_realm p) = p.opcode
opcode_of (to_instance p) = p.opcode
opcode_of (to_server p) = p.opcode

taxi_run-SplineFirst_example :
    SplinesFirst whole_numbers same_angle flown session
      (taxi_run whole_numbers same_angle flown session).0
taxi_run-SplineFirst_example = taxi_run-SplineFirst whole_numbers same_angle flown session

taxi_run-paid_example :
    successes (taxi_run whole_numbers same_angle flown session).0
      + waiting (taxi_run whole_numbers same_angle flown session).1
    ≤ all_accepts flown + waiting session
taxi_run-paid_example = taxi_run-paid whole_numbers same_angle flown session

accepted_is_parsed : parse_legacy_activate_taxi_reply accepted_body ≡ some 0
unfolding parse_legacy_activate_taxi_reply read_body ◌>>=◌ number take_bytes pure guard le_value
accepted_is_parsed = refl

abbrev waiting_session : TaxiSession
waiting_session =
    (taxi_run whole_numbers same_angle (reply accepted_body ∷ new_path [] ∷ []) session).1

rider_is_named : modern_guid_in waiting_session.objects 5 ≢ zero_guid
unfolding modern_guid_in lookup_guid taxi_run taxi_step new_taxi_path activate_taxi_reply
    parse_legacy_activate_taxi_reply read_body ◌>>=◌ number take_bytes pure guard le_value
rider_is_named e = ground (arith, ap (λ g. g.low) e)

own_flight : 5 ≡ waiting_session.objects.current_character
unfolding taxi_run taxi_step new_taxi_path activate_taxi_reply parse_legacy_activate_taxi_reply
    read_body ◌>>=◌ number take_bytes pure guard le_value
own_flight = refl

is_flight : is_legacy_taxi_flight flight ≡ true
unfolding is_legacy_taxi_flight
is_flight = refl

path_is_quiet : All (λ event. leaves_request same_angle event ≡ true) (new_path [] ∷ [])
unfolding leaves_request
path_is_quiet = (refl, tt)

taxi_is_answered_example :
    (stops : List Sent) × (spline : List ℕ) × (encoded_move whole_numbers same_angle
        (marked_move 7 flight waiting_session)
        waiting_session.objects
      ≡ some spline)
    × ((on_monster_move whole_numbers same_angle 7 flight_body false waiting_session).0
        ≡ stops
          ++ (to_instance (record { opcode = on_monster_move_opcode; body = spline })
              ∷ taxi_reply 0
              ∷ []))
    × ((on_monster_move whole_numbers same_angle 7 flight_body false
          waiting_session).1.taxi_reply_pending
        ≡ false)
taxi_is_answered_example =
    taxi_is_answered whole_numbers same_angle accepted_body flight_body (new_path [] ∷ []) 7 false
      flight session waiting_session accepted_is_parsed path_is_quiet refl flight_is_parsed
      is_flight own_flight rider_is_named

-- Two stops, the flight and the success; a second flight is no start; a refusal.
flown_in_order :
    map opcode_of (taxi_run whole_numbers same_angle flown session).0
    ≡ 9854 ∷ 11732 ∷ 9799 ∷ 11732 ∷ 9799 ∷ 11732 ∷ 9853 ∷ 11732 ∷ 9853 ∷ []
unfolding taxi_run taxi_step activate_taxi_reply parse_legacy_activate_taxi_reply read_body ◌>>=◌
    number take_bytes pure guard le_value new_taxi_path on_monster_move parse_legacy_monster_move
    monster_move facing_part spline_part path_part read_packed_guid unpack_loop optional replicate
    floats3 has monster_move_sent is_taxi_start before is_legacy_taxi_flight marked_move moved
    legacy_unit_is_swimming stop_before pre_splines encoded_move encode_monster_move modern_guid_in
    lookup_guid modern_spline_type sent_path zero_vector3
flown_in_order = refl
