-- ===== src/Tests/TaxiRuns.antt =====
-- Runs of the search for a taxi route of internal/modernworld/taxi.go.
use redscarf_proxy.Prelude.{ℕ, ◌≡◌, refl, arith, List, [], ◌∷◌, Option, some}
use redscarf_proxy.TaxiRoute.Graph.{
  pos, TaxiEdge, TaxiGraph, edges, positive_cost, parse_taxi_path, load_taxi_path_graph,
  taxi_node_usable,
}
use redscarf_proxy.TaxiRoute.Search.{
  taxi_route, no_usable_route, invalid_route, shortest_taxi_route, search_loop, start, nearest,
  nearer, visit, reach_by, offer, relax, relax_all, trace, extend, route_of,
}
use redscarf_proxy.TaxiRoute.Shortest.{IsAnswer, shortest_taxi_route-IsAnswer}

abbrev path : ℕ → ℕ → ℕ → ℕ × TaxiEdge
path from to cost = (from, record { to = to; cost = cost })

-- Columns that are numbers already.
abbrev columns : List (Option (List ℕ))
columns =
    some (1 ∷ 1 ∷ 2 ∷ 5 ∷ [])
    ∷ some (2 ∷ 2 ∷ 3 ∷ 5 ∷ [])
    ∷ some (3 ∷ 1 ∷ 3 ∷ 20 ∷ [])
    ∷ some (4 ∷ 3 ∷ 4 ∷ 0 ∷ [])
    ∷ some (5 ∷ 2 ∷ 4 ∷ 30 ∷ [])
    ∷ []

abbrev small_graph : TaxiGraph
small_graph = path 1 2 5 ∷ path 2 3 5 ∷ path 1 3 20 ∷ path 3 4 1 ∷ path 2 4 30 ∷ []

-- A cost of 0 is loaded as 1.
small_graph_is_loaded :
    load_taxi_path_graph {T = ℕ} (λ text. some text) (λ text. some (pos text)) columns
    ≡ some small_graph
unfolding load_taxi_path_graph parse_taxi_path positive_cost
small_graph_is_loaded = refl

abbrev in_order : ℕ → List ℕ → List ℕ
in_order fuel nodes = nodes

-- By all nodes, and past the node 3, which may not be used.
routes :
    (shortest_taxi_route small_graph in_order 1 4 (0xff ∷ []) ≡ taxi_route (1 ∷ 2 ∷ 3 ∷ 4 ∷ []))
    × (shortest_taxi_route small_graph in_order 1 4 (0xfb ∷ []) ≡ taxi_route (1 ∷ 2 ∷ 4 ∷ []))
    × (shortest_taxi_route small_graph in_order 4 1 (0xff ∷ []) ≡ no_usable_route)
    × (shortest_taxi_route small_graph in_order 4 4 (0xff ∷ []) ≡ invalid_route)
unfolding shortest_taxi_route search_loop start nearest nearer visit reach_by offer relax relax_all
    trace extend route_of edges taxi_node_usable
routes = (refl, refl, refl, refl)

shortest_taxi_route-IsAnswer_example :
    IsAnswer small_graph (0xff ∷ []) 1 4 (shortest_taxi_route small_graph in_order 1 4 (0xff ∷ []))
shortest_taxi_route-IsAnswer_example =
    shortest_taxi_route-IsAnswer (λ text. some text) (λ text. some (pos text)) columns small_graph
      30 in_order 1 4 (0xff ∷ []) small_graph_is_loaded (omega arith) (omega arith)
      (λ round n nodes i. i)
