-- ===== src/TaxiRoute/Search.antt =====
-- `ShortestTaxiRoute` of internal/modernworld/taxi.go. A Go map is iterated in any order: the order
-- in which a round sees the keys of `distance` is an argument. The loops take fuel: there is one round
-- for each node, and a step back along a route goes to a smaller distance. A distance is an int; as a
-- natural number it does not wrap, and the theorems keep it below `infinity`.
use redscarf_proxy.Prelude.{
  ℕ, zero, suc, ◌+◌, ◌-◌, ◌^◌, ◌==◌, ltb, not, ◌&&◌, ◌||◌, if◌then◌else◌, Bool, true, false, List,
  [], ◌∷◌, ◌++◌, Option, none, some, length,
}
use mathlib.Core.List.{reverse}
use redscarf_proxy.TaxiRoute.Graph.{TaxiEdge, TaxiGraph, edges, taxi_node_usable}

-- `nodes` holds the keys of `distance`.
pub record Search : Type 0 where
  pub nodes : List ℕ
  pub distance : ℕ → Option ℕ
  pub previous : ℕ → Option ℕ
  pub visited : ℕ → Bool

abbrev pub infinity : ℕ
infinity = 2 ^ 63 - 1

unfoldable pub start : ℕ → Search
start source = record {
  nodes = source ∷ [];
  distance = λ node. if node == source then some 0 else none;
  previous = λ node. none;
  visited = λ node. false;
}

-- One step of the loop that looks for the nearest node that is not visited.
unfoldable pub nearer : Search → ℕ → ℕ × ℕ → ℕ × ℕ
nearer s node (current, best) = elim (s.distance node) [
  | none ↦ (current, best)
  | some value ↦ if not (s.visited node) && ltb value best then (node, value) else (current, best)
]

unfoldable pub nearest : Search → List ℕ → ℕ × ℕ → ℕ × ℕ
nearest s [] found = found
nearest s (node ∷ nodes) found = nearest s nodes (nearer s node found)

unfoldable pub visit : ℕ → Search → Search
visit current s = record s { visited = λ node. if node == current then true else s.visited node }

-- A distance for `node`, by way of `current`.
unfoldable pub reach_by : ℕ → ℕ → ℕ → Search → Search
reach_by current node candidate s = record s {
  distance = λ n. if n == node then some candidate else s.distance n;
  previous = λ n. if n == node then some current else s.previous n;
}

unfoldable pub offer : ℕ → ℕ → ℕ → Search → Search
offer current node candidate s = elim (s.distance node) [
  | none ↦ reach_by current node candidate (record s { nodes = s.nodes ++ (node ∷ []) })
  | some old ↦ if ltb candidate old then reach_by current node candidate s else s
]

unfoldable pub relax : List ℕ → ℕ → ℕ → ℕ → TaxiEdge → Search → Search
relax usable destination current best edge s =
    if not (edge.to == destination) && not (taxi_node_usable usable edge.to)
    then s
    else offer current edge.to (best + edge.cost) s

unfoldable pub relax_all : List ℕ → ℕ → ℕ → ℕ → List TaxiEdge → Search → Search
relax_all usable destination current best [] s = s
relax_all usable destination current best (edge ∷ rest) s =
    relax_all usable destination current best rest (relax usable destination current best edge s)

module _ (graph : TaxiGraph) (order : ℕ → List ℕ → List ℕ) (usable : List ℕ) where
  -- `none` if the fuel runs out.
  unfoldable pub search_loop : ℕ → ℕ → Search → Option Search
  search_loop zero destination s = none
  search_loop (suc fuel) destination s =
      let (current, best) = nearest s (order fuel s.nodes) (0, infinity) in
      let rest =
        search_loop fuel destination
          (relax_all usable destination current best (edges graph current) (visit current s)) in
      if current == 0 || current == destination then some s else rest

pub data TaxiRoute : Type 0 where
  invalid_route : TaxiRoute
  no_usable_route : TaxiRoute
  incomplete_route : TaxiRoute
  out_of_fuel : TaxiRoute
  taxi_route : List ℕ → TaxiRoute

-- `append(route, parent)`, seen from the node before.
unfoldable pub extend : ℕ → Option (Option (List ℕ)) → Option (Option (List ℕ))
extend node none = none
extend node (some none) = some none
extend node (some (some route)) = some (some (node ∷ route))

-- The nodes from `node` back to the source: `none` if the fuel runs out, and inside it `none` for a
-- node without a parent.
unfoldable pub trace : ℕ → ℕ → Search → ℕ → Option (Option (List ℕ))
trace zero source s node = none
trace (suc fuel) source s node =
    let rest : Option (Option (List ℕ)) = elim (s.previous node) [
      | none ↦ some none
      | some parent ↦ extend node (trace fuel source s parent)
    ] in
    if node == source then some (some (node ∷ [])) else rest

-- From the search to the route. The list is turned round in place.
unfoldable pub route_of : ℕ → ℕ → Search → TaxiRoute
route_of source destination s = elim (s.distance destination) [
  | none ↦ no_usable_route
  | some total ↦ elim (trace (suc total) source s destination) [
    | none ↦ out_of_fuel
    | some none ↦ incomplete_route
    | some (some route) ↦ taxi_route (reverse route)
  ]
]

module _ (graph : TaxiGraph) (order : ℕ → List ℕ → List ℕ) where
  -- The graph was loaded without an error.
  unfoldable pub shortest_taxi_route : ℕ → ℕ → List ℕ → TaxiRoute
  shortest_taxi_route source destination usable =
      if source == 0 || destination == 0 || source == destination
      then invalid_route
      else elim (search_loop graph order usable (length graph + 2) destination (start source)) [
        | none ↦ out_of_fuel
        | some s ↦ route_of source destination s
      ]
