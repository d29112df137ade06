-- ===== src/TaxiRoute/Graph.antt =====
-- The taxi paths of internal/modernworld/taxi.go. The records that the csv reader gives, and the two
-- number parsers of strconv, are arguments.
use redscarf_proxy.Prelude.{
  ℕ, zero, suc, ◌/◌, ◌%◌, ◌^◌, ◌==◌, bit_and, not, if◌then◌else◌, Bool, false, List, [], ◌∷◌,
  Option, none, some, get_elem?,
}

-- An int, as Atoi gives it; `negsuc n` is -(n + 1).
pub data ℤ : Type 0 where
  pos : ℕ → ℤ
  negsuc : ℕ → ℤ

pub record TaxiEdge : Type 0 where
  pub to : ℕ
  pub cost : ℕ

-- The map from a node to its edges: its entries, each with its node, in the order of insertion.
abbrev pub TaxiGraph : Type 0
TaxiGraph = List (ℕ × TaxiEdge)

-- A cost that is not positive is 1.
unfoldable pub positive_cost : ℤ → ℕ
positive_cost (pos zero) = 1
positive_cost (pos (suc n)) = suc n
positive_cost (negsuc n) = 1

-- `taxiPathGraph[node]`
unfoldable pub edges : TaxiGraph → ℕ → List TaxiEdge
edges [] node = []
edges ((from, edge) ∷ graph) node =
    let rest = edges graph node in if from == node then edge ∷ rest else rest

module _ {T : Type 0} (parse_uint : T → Option ℕ) (atoi : T → Option ℤ) where
  -- A record has an identity, two nodes and a cost.
  unfoldable pub parse_taxi_path : List T → Option (ℕ × TaxiEdge)
  parse_taxi_path (id ∷ from_text ∷ to_text ∷ cost_text ∷ []) = elim (parse_uint from_text) [
    | none ↦ none
    | some from ↦ elim (parse_uint to_text) [
      | none ↦ none
      | some to ↦ elim (atoi cost_text) [
        | none ↦ none
        | some cost ↦ some (from, record { to = to; cost = positive_cost cost })
      ]
    ]
  ]
  parse_taxi_path columns = none

  -- The records after the header; `none` for a record that the reader refuses. An error is `none`.
  unfoldable pub load_taxi_path_graph : List (Option (List T)) → Option TaxiGraph
  load_taxi_path_graph [] = some []
  load_taxi_path_graph (none ∷ records) = none
  load_taxi_path_graph (some columns ∷ records) = elim (parse_taxi_path columns) [
    | none ↦ none
    | some path ↦ elim (load_taxi_path_graph records) [
      | none ↦ none
      | some graph ↦ some (path ∷ graph)
    ]
  ]

-- The bit of a node, which counts from 1, in a mask.
unfoldable pub taxi_node_usable : List ℕ → ℕ → Bool
taxi_node_usable mask zero = false
taxi_node_usable mask (suc n) = elim (get_elem? mask (n / 8)) [
  | none ↦ false
  | some byte ↦ not (bit_and byte (2 ^ (n % 8)) == 0)
]
