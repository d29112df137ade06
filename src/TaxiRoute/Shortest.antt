-- ===== src/TaxiRoute/Shortest.antt =====
-- `ShortestTaxiRoute` answers, and its route is a shortest one (internal/modernworld/taxi.go).
use redscarf_proxy.Prelude.{
  ℕ, zero, suc, ◌+◌, ◌*◌, ◌≤◌, ◌<◌, ◌≡◌, ◌≢◌, ◌⊎◌, inl, inr, refl, sym, ap, arith, ◌==◌, ◌||◌,
  false, List, [], ◌∷◌, Option, none, some, length, Bool-cases, Option-cases,
}
use mathlib.Core.Path.{subst}
use redscarf_proxy.TaxiRoute.Graph.{
  ℤ, pos, negsuc, TaxiEdge, TaxiGraph, positive_cost, parse_taxi_path, load_taxi_path_graph,
}
use redscarf_proxy.TaxiRoute.Search.{
  Search, infinity, start, route_of, TaxiRoute, invalid_route, no_usable_route, incomplete_route,
  out_of_fuel, taxi_route, shortest_taxi_route,
}
use redscarf_proxy.TaxiRoute.Walk.{Steps, IsPriced, IsCheap, IsOrder}
use redscarf_proxy.TaxiRoute.Invariant.{targets}
use redscarf_proxy.TaxiRoute.Rounds.{unvisited, unvisited-le-length}
use redscarf_proxy.TaxiRoute.Trace.{trace-Steps, Covered, Steps-Covered}
use redscarf_proxy.TaxiRoute.Ends.{Between, Finished, nodes, search_loop-Finished}

positive_cost-pos : (z : ℤ) → 1 ≤ positive_cost z
unfolding positive_cost
positive_cost-pos (pos zero) = omega arith
positive_cost-pos (pos (suc n)) = omega arith
positive_cost-pos (negsuc n) = omega arith

length-targets : (graph : TaxiGraph) → length (targets graph) ≡ length graph
length-targets [] = refl
length-targets ((from, edge) ∷ graph) = ap suc (length-targets graph)

parse_taxi_path-pos :
    {T : Type 0} (parse_uint : T → Option ℕ) (atoi : T → Option ℤ) (columns : List T) (from : ℕ)
    (edge : TaxiEdge)
    → parse_taxi_path parse_uint atoi columns ≡ some (from, edge)
    → 1 ≤ edge.cost
unfolding parse_taxi_path
parse_taxi_path-pos parse_uint atoi (id ∷ from_text ∷ to_text ∷ cost_text ∷ []) from edge h =
    elim (Option-cases (parse_uint from_text)) [
      | inl e ↦ absurd (ground arith)
      | inr (f, ef) ↦ elim (Option-cases (parse_uint to_text)) [
        | inl e ↦ absurd (ground arith)
        | inr (t, et) ↦ elim (Option-cases (atoi cost_text)) [
          | inl e ↦ absurd (ground arith)
          | inr (z, ez) ↦ ground (arith, positive_cost-pos z)
        ]
      ]
    ]
parse_taxi_path-pos parse_uint atoi columns from edge h = cc

times : (a b c : ℕ) → a ≤ b → a * c ≤ b * c
times a b c h = grind arith

-- The loader leaves no cost that is not positive.
load-IsPriced :
    {T : Type 0} (parse_uint : T → Option ℕ) (atoi : T → Option ℤ) (limit : ℕ)
    (records : List (Option (List T))) (graph : TaxiGraph)
    → load_taxi_path_graph parse_uint atoi records ≡ some graph
    → IsCheap limit graph
    → IsPriced limit graph
unfolding load_taxi_path_graph
load-IsPriced parse_uint atoi limit [] graph h cheap =
    let e : [] ≡ graph = cc in subst (IsPriced limit) e tt
load-IsPriced parse_uint atoi limit (none ∷ records) graph h cheap = cc
load-IsPriced parse_uint atoi limit (some columns ∷ records) graph h cheap =
    elim (Option-cases (parse_taxi_path parse_uint atoi columns)) [
      | inl e ↦ absurd (ground arith)
      | inr ((from, edge), e) ↦ elim (Option-cases (load_taxi_path_graph parse_uint atoi records)) [
        | inl f ↦ absurd (ground arith)
        | inr (rest, f) ↦
            let whole : (from, edge) ∷ rest ≡ graph = ground arith in
            subst (λ g. IsCheap limit g → IsPriced limit g) whole
              (λ c. (
                parse_taxi_path-pos parse_uint atoi columns from edge e,
                c.0,
                load-IsPriced parse_uint atoi limit records rest f c.1,
              ))
              cheap
      ]
    ]

start-Between :
    (graph : TaxiGraph) (usable : List ℕ) (source destination limit : ℕ)
    → source ≢ 0
    → Between graph usable source destination
        ((length graph + 1) * limit)
        0
        (unvisited (nodes graph usable source destination) (start source).visited * limit)
        (start source)
unfolding start
start-Between graph usable source destination limit some_source = record {
  keyed = λ n d e. ground arith;
  at_source = ground arith;
  settled = λ u v. absurd (cc);
  waiting = λ n d v e. omega arith;
  closed = λ u d w k v e m a. absurd (cc);
  linked = λ n d e. ground arith;
  known = λ n d e.
      let first : (n ≡ source) × (d ≡ 0) = ground arith in
      (ground arith, inl (sym first.0), omega (arith, first.1, affordable));
}
  where
    affordable :
        unvisited (nodes graph usable source destination) (start source).visited * limit
        ≤ (length graph + 1) * limit
    affordable =
        let few : unvisited (nodes graph usable source destination) (start source).visited
            ≤ length graph + 1 =
          omega (
            arith,
            length-targets graph,
            unvisited-le-length (nodes graph usable source destination) (start source).visited,
          ) in
        times _ _ limit few

-- What a caller may read off an answer.
abbrev pub IsAnswer : TaxiGraph → List ℕ → ℕ → ℕ → TaxiRoute → Type 0
IsAnswer graph usable source destination invalid_route =
    (source ≡ 0) ⊎ (destination ≡ 0) ⊎ (source ≡ destination)
IsAnswer graph usable source destination no_usable_route =
    (ws : List ℕ) (cost : ℕ) → ¬ Steps graph usable destination source ws destination cost
IsAnswer graph usable source destination incomplete_route = ⊥
IsAnswer graph usable source destination out_of_fuel = ⊥
IsAnswer graph usable source destination (taxi_route route) =
    (source ≢ destination)
    × ((ws : List ℕ) × (cost : ℕ) × (route ≡ source ∷ ws)
        × Steps graph usable destination source ws destination cost
        × ((vs : List ℕ) (other : ℕ)
            → Steps graph usable destination source vs destination other
            → cost ≤ other))

start_fresh : (source n : ℕ) → (start source).visited n ≡ false
unfolding start
start_fresh source n = refl

module _ (graph : TaxiGraph) (usable : List ℕ) (source destination budget threshold spare limit : ℕ)
    (s : Search) (priced : IsPriced limit graph)
    (f : Finished graph usable source destination budget threshold spare s) where
  -- A walk to the destination passes a node that has not been visited and is no further.
  passes :
      (ws : List ℕ) (cost : ℕ)
      → Steps graph usable destination source ws destination cost
      → (n : ℕ) × (d : ℕ) × (s.visited n ≡ false) × (s.distance n ≡ some d) × (d ≤ cost)
  passes ws cost steps =
      let at_source : s.distance source ≡ some 0 = f.between.at_source in
      let first : Covered graph usable source destination budget threshold spare limit s priced
          f.between source 0 =
        elim (Bool-cases (s.visited source)) [
          | inl v ↦ inl (0, v, at_source, omega arith)
          | inr w ↦ inr (source, 0, w, at_source, omega arith)
        ] in
      elim (Steps-Covered graph usable source destination budget threshold spare limit s priced
        f.between source ws destination 0 cost first steps) [
          | inl (d, v, at_end, near) ↦ absurd (cc (f.unvisited_destination))
          | inr (n, d, w, at_n, near) ↦ (n, d, w, at_n, omega arith)
        ]

  unreached :
      s.distance destination ≡ none
      → (ws : List ℕ) (cost : ℕ) → ¬ Steps graph usable destination source ws destination cost
  unreached lost ws cost steps =
      let (n, d, w, at_n, near) = passes ws cost steps in
      elim f.last [ inl (best, at_end, least) ↦ absurd (cc) | inr nobody ↦ nobody n d w at_n ]

  least_cost :
      (total : ℕ)
      → s.distance destination ≡ some total
      → (ws : List ℕ) (cost : ℕ) → Steps graph usable destination source ws destination cost
      → total ≤ cost
  least_cost total at_end ws cost steps =
      let (n, d, w, at_n, near) = passes ws cost steps in
      elim f.last [
        | inl (best, at_best, least) ↦
            let bound : best ≤ d = least n d w at_n in
            let same : total ≡ best = ground arith in omega arith
        | inr nobody ↦ absurd (nobody n d w at_n)
      ]

  route_of-IsAnswer :
      source ≢ destination
      → IsAnswer graph usable source destination (route_of source destination s)
  unfolding route_of
  route_of-IsAnswer apart = elim (Option-cases (s.distance destination)) [
    | inl lost ↦ rw (route_of, lost) (unreached lost)
    | inr (d, at_end) ↦
        let (back, ws, traced, turned, steps) =
          trace-Steps graph usable source destination budget threshold spare limit s priced
            f.between (suc d) destination d at_end (omega arith) in
        rw (route_of, at_end, traced) (apart, (ws, d, turned, steps, least_cost d at_end))
  ]

-- Of a graph that was loaded, whose costs are at most `limit` and too small to reach `infinity`, and
-- for every order of the maps, the search answers: the request is refused only for a node 0 or for
-- equal nodes; there is no walk by nodes that may be used if it finds none; and what it finds is such
-- a walk from the source to the destination, no dearer than any other. It never runs out of fuel and
-- never finds an incomplete route.
pub shortest_taxi_route-IsAnswer :
    {T : Type 0} (parse_uint : T → Option ℕ) (atoi : T → Option ℤ)
    (records : List (Option (List T))) (graph : TaxiGraph) (limit : ℕ) (order : ℕ → List ℕ → List ℕ)
    (source destination : ℕ) (usable : List ℕ)
    → load_taxi_path_graph parse_uint atoi records ≡ some graph
    → IsCheap limit graph
    → (length graph + 1) * limit < infinity
    → IsOrder order
    → IsAnswer graph usable source destination
        (shortest_taxi_route graph order source destination usable)
unfolding shortest_taxi_route
shortest_taxi_route-IsAnswer parse_uint atoi records graph limit order source destination usable
      loaded cheap small complete =
    let priced : IsPriced limit graph =
      load-IsPriced parse_uint atoi limit records graph loaded cheap in
    elim (Bool-cases (source == 0 || destination == 0 || source == destination)) [
      | inl refused ↦ rw (shortest_taxi_route, refused) (ground arith)
      | inr valid ↦
          let some_source : source ≢ 0 = ground arith in
          let some_destination : destination ≢ 0 = ground arith in
          let (t, last, found, finished) =
            search_loop-Finished graph usable source destination limit ((length graph + 1) * limit)
              order priced some_destination small complete (length graph + 2) 0 (start source)
              (omega (
                arith,
                length-targets graph,
                unvisited-le-length (source ∷ targets graph) (start source).visited,
              ))
              (start-Between graph usable source destination limit some_source)
              (start_fresh source destination) in
          rw (shortest_taxi_route, valid, found)
            (route_of-IsAnswer graph usable source destination ((length graph + 1) * limit) last _
              limit t priced finished (ground arith))
    ]
