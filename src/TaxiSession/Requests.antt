-- ===== src/TaxiSession/Requests.antt =====
-- The taxi requests of the client (internal/proxy/server.go).
use redscarf_proxy.Prelude.{ℕ, ◌==◌, if◌then◌else◌, List, [], ◌∷◌, Option, none, some}
use redscarf_proxy.Guid.{Guid128}
use redscarf_proxy.Identity.Cache.{legacy_guid_for_modern}
use redscarf_proxy.Movement.Taxi.{
  parse_taxi_npc, parse_activate_taxi, encode_legacy_taxi_npc, encode_legacy_activate_taxi,
  encode_legacy_activate_taxi_express,
}
use redscarf_proxy.TaxiRoute.Graph.{TaxiGraph}
use redscarf_proxy.TaxiRoute.Search.{taxi_route, shortest_taxi_route}
use redscarf_proxy.TaxiSession.{Sent, to_server, TaxiSession}

abbrev cmsg_taxi_node_status_query : ℕ
cmsg_taxi_node_status_query = 13480

abbrev cmsg_enable_taxi_node : ℕ
cmsg_enable_taxi_node = 13481

abbrev cmsg_taxi_query_available_nodes : ℕ
cmsg_taxi_query_available_nodes = 13482

-- The opcode for the server of a request to a flight master.
unfoldable pub legacy_taxi_opcode : ℕ → ℕ
legacy_taxi_opcode opcode =
    if opcode == cmsg_taxi_query_available_nodes
    then 0x01ac
    else (if opcode == cmsg_enable_taxi_node then 0x017b else 0x01aa)

-- The requests of the client. An error is `none`: the handler gives it to its caller.
module _ (order : List (ℕ × Guid128) → List (ℕ × Guid128)) where
  unfoldable pub taxi_npc : ℕ → List ℕ → TaxiSession → Option (List Sent)
  taxi_npc opcode body s = elim (parse_taxi_npc body) [
    | none ↦ none
    | some guid ↦ elim (legacy_guid_for_modern order s.objects guid) [
      | none ↦ none
      | some legacy ↦
          if s.connected
          then some (
              to_server (record {
                opcode = legacy_taxi_opcode opcode;
                body = encode_legacy_taxi_npc legacy;
              })
              ∷ [])
          else some []
    ]
  ]

  unfoldable pub activate_request : ℕ → List ℕ → Sent
  activate_request guid (source ∷ destination ∷ []) =
      to_server
        (record { opcode = 0x01ad; body = encode_legacy_activate_taxi guid source destination })
  activate_request guid route =
      to_server (record { opcode = 0x0312; body = encode_legacy_activate_taxi_express guid route })

  module _ (graph : TaxiGraph) (edge_order : ℕ → List ℕ → List ℕ) where
    unfoldable pub activate_taxi : List ℕ → TaxiSession → Option (List Sent)
    activate_taxi body s = elim (parse_activate_taxi body) [
      | none ↦ none
      | some request ↦ elim (legacy_guid_for_modern order s.objects request.flight_master) [
        | none ↦ none
        | some legacy ↦
            elim (shortest_taxi_route graph edge_order s.current_taxi_node request.destination
              s.usable_taxi_nodes) [
                | taxi_route route ↦
                    some (if s.connected then activate_request legacy route ∷ [] else [])
                | _ ↦ none
              ]
      ]
    ]
