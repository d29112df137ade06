-- ===== src/TaxiRoute/Walk.antt =====
-- Walks in the taxi paths of internal/modernworld/taxi.go, which a route is measured by.
use redscarf_proxy.Prelude.{ℕ, ◌+◌, ◌≤◌, ◌≡◌, ◌⊎◌, true, List, [], ◌∷◌}
use redscarf_proxy.TaxiRoute.Graph.{TaxiEdge, TaxiGraph, edges, taxi_node_usable}

abbrev pub In : ℕ → List ℕ → Type 0
In n [] = ⊥
In n (m ∷ ms) = (m ≡ n) ⊎ In n ms

-- An edge to `w` of cost `k`.
abbrev pub HasEdge : ℕ → ℕ → List TaxiEdge → Type 0
HasEdge w k [] = ⊥
HasEdge w k (e ∷ es) = ((e.to ≡ w) × (e.cost ≡ k)) ⊎ HasEdge w k es

-- Every cost is at least 1 and at most `limit`, and no edge leads to the node 0.
abbrev pub IsPriced : ℕ → TaxiGraph → Type 0
IsPriced limit [] = Unit {0}
IsPriced limit ((from, e) ∷ graph) = (1 ≤ e.cost) × (e.cost ≤ limit) × IsPriced limit graph

abbrev pub IsCheap : ℕ → TaxiGraph → Type 0
IsCheap limit [] = Unit {0}
IsCheap limit ((from, e) ∷ graph) = (e.cost ≤ limit) × IsCheap limit graph

-- A round sees every key of the map, whatever the order.
abbrev pub IsOrder : (ℕ → List ℕ → List ℕ) → Type 0
IsOrder order = (round n : ℕ) (nodes : List ℕ) → In n nodes → In n (order round nodes)

module _ (graph : TaxiGraph) (usable : List ℕ) (destination : ℕ) where
  -- A node that a route may go to.
  abbrev pub Allowed : ℕ → Type 0
  Allowed w = (w ≡ destination) ⊎ (taxi_node_usable usable w ≡ true)

  -- From `u` through these nodes to `v`, at this cost.
  abbrev pub Steps : ℕ → List ℕ → ℕ → ℕ → Type 0
  Steps u [] v cost = (u ≡ v) × (cost ≡ 0)
  Steps u (w ∷ ws) v cost =
      (k : ℕ) × (rest : ℕ) × HasEdge w k (edges graph u)
      × Allowed w
      × Steps w ws v rest
      × (cost ≡ k + rest)
