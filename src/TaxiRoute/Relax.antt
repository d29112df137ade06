-- ===== src/TaxiRoute/Relax.antt =====
-- The edges of a node that is visited, in `ShortestTaxiRoute` (internal/modernworld/taxi.go).
use redscarf_proxy.Prelude.{
  ℕ, zero, suc, ◌+◌, ◌≤◌, ◌<◌, ◌≡◌, ◌≢◌, ◌⊎◌, inl, inr, refl, sym, arith, ◌==◌, ltb, not, ◌&&◌,
  false, List, [], ◌∷◌, ◌++◌, some, Bool-cases, Option-cases,
}
use mathlib.Core.Path.{subst}
use redscarf_proxy.TaxiRoute.Graph.{TaxiEdge, TaxiGraph, edges, taxi_node_usable}
use redscarf_proxy.TaxiRoute.Search.{Search, reach_by, offer, relax, relax_all}
use redscarf_proxy.TaxiRoute.Walk.{In, HasEdge, Allowed, IsPriced}
use redscarf_proxy.TaxiRoute.Invariant.{IsCurrent, targets, Inv, reach_by-Inv}

pub In-append_left : (n : ℕ) (ms ns : List ℕ) → In n ms → In n (ms ++ ns)
In-append_left n [] ns h = elim h [ ]
In-append_left n (m ∷ ms) ns (inl e) = inl e
In-append_left n (m ∷ ms) ns (inr h) = inr (In-append_left n ms ns h)

In-append_last : (n : ℕ) (ms : List ℕ) → In n (ms ++ (n ∷ []))
In-append_last n [] = inl refl
In-append_last n (m ∷ ms) = inr (In-append_last n ms)

-- What an edge costs, and that it leads to a target.
pub edges_bounds :
    (limit : ℕ) (graph : TaxiGraph) (u w k : ℕ)
    → IsPriced limit graph
    → HasEdge w k (edges graph u)
    → (1 ≤ k) × (k ≤ limit) × In w (targets graph)
unfolding edges
edges_bounds limit [] u w k priced h = elim h [ ]
edges_bounds limit ((from, e) ∷ graph) u w k priced h =
    ground (arith, edges_bounds limit graph u w k priced.2)

module _ (graph : TaxiGraph) (usable : List ℕ) (source destination limit : ℕ) where
  module _ (budget threshold spare current : ℕ) where
    abbrev At : List TaxiEdge → Search → Type 0
    At left s = Inv graph usable source destination budget threshold spare current left s

    -- An edge that changes nothing.
    skip-Inv :
        (edge : TaxiEdge) (left : List TaxiEdge) (s : Search)
        → (Allowed graph usable destination edge.to
            → (old : ℕ) × (s.distance edge.to ≡ some old) × (old ≤ threshold + edge.cost))
        → IsCurrent threshold current s
        → At (edge ∷ left) s
        → At left s
    skip-Inv edge left s near c h = record {
      keyed = h.keyed;
      at_source = h.at_source;
      settled = h.settled;
      waiting = h.waiting;
      closed = λ u d w k v e m a. closed u d w k e a (h.closed u d w k v e m a);
      linked = h.linked;
      known = h.known;
    }
      where
        closed :
            (u d w k : ℕ)
            → s.distance u ≡ some d
            → Allowed graph usable destination w
            → ((e : ℕ) × (s.distance w ≡ some e) × (e ≤ d + k))
              ⊎ ((u ≡ current) × HasEdge w k (edge ∷ left))
            → ((e : ℕ) × (s.distance w ≡ some e) × (e ≤ d + k)) ⊎ ((u ≡ current) × HasEdge w k left)
        closed u d w k e a (inl found) = inl found
        closed u d w k e a (inr (same, inr later)) = inr (same, later)
        closed u d w k e a (inr (same, inl (to, cost))) =
            let (old, at_to, near_enough) =
              near (subst (Allowed graph usable destination) (sym to) a) in
            inl (old, subst (λ m. s.distance m ≡ some old) to at_to, ground (arith, c.at_current))

    module _ (priced : IsPriced limit graph) (some_destination : destination ≢ 0)
        (affordable : threshold + limit + spare ≤ budget) where
      Allowed-ne-zero : (w : ℕ) → Allowed graph usable destination w → w ≢ 0
      unfolding taxi_node_usable
      Allowed-ne-zero w (inl e) = ground arith
      Allowed-ne-zero zero (inr e) = absurd (cc)
      Allowed-ne-zero (suc w) (inr e) = omega arith

      abbrev shorter : List ℕ → TaxiEdge → Search → Search
      shorter nodes edge s =
          reach_by current edge.to (threshold + edge.cost) (record s { nodes = nodes })

      reach_by-Both :
          (edge : TaxiEdge) (left : List TaxiEdge) (s : Search) (nodes : List ℕ)
          → HasEdge edge.to edge.cost (edges graph current)
          → Allowed graph usable destination edge.to
          → IsCurrent threshold current s
          → At (edge ∷ left) s
          → ((old : ℕ) → s.distance edge.to ≡ some old → threshold + edge.cost < old)
          → ((m : ℕ) → In m s.nodes → In m nodes)
          → In edge.to nodes
          → At left (shorter nodes edge s) × IsCurrent threshold current (shorter nodes edge s)
      unfolding reach_by
      reach_by-Both edge left s nodes has a c h less grown added =
          let bounds = edges_bounds limit graph current edge.to edge.cost priced has in
          let fresh : s.visited edge.to ≡ false = elim (Bool-cases (s.visited edge.to)) [
            | inl v ↦
                let (d, at_to, near) = h.settled edge.to v in absurd (omega (arith, less d at_to))
            | inr f ↦ f
          ] in
          (
            reach_by-Inv graph usable source destination budget threshold spare current edge left s
                nodes h
                (record {
                  fresh = fresh;
                  here = c.here;
                  at_current = c.at_current;
                  has_edge = has;
                  allowed = a;
                  less = less;
                  not_zero = Allowed-ne-zero edge.to a;
                  target = inr bounds.2;
                  affordable = omega arith;
                  grown = grown;
                  added = added;
                }),
            record { here = c.here; at_current = ground (arith, c.here, c.at_current) },
          )

      relax-Inv :
          (edge : TaxiEdge) (left : List TaxiEdge) (s : Search)
          → HasEdge edge.to edge.cost (edges graph current)
          → IsCurrent threshold current s
          → At (edge ∷ left) s
          → At left (relax usable destination current threshold edge s)
            × IsCurrent threshold current (relax usable destination current threshold edge s)
      unfolding relax offer
      relax-Inv edge left s has c h =
          elim (Bool-cases
            (not (edge.to == destination) && not (taxi_node_usable usable edge.to))) [
              | inl barred ↦ rw barred (skip-Inv edge left s (λ a. absurd (ground arith)) c h, c)
              | inr passes ↦
                  let a : Allowed graph usable destination edge.to = ground arith in
                  rw passes (elim (Option-cases (s.distance edge.to)) [
                    | inl new ↦
                        rw (offer, new)
                          (reach_by-Both edge left s (s.nodes ++ (edge.to ∷ [])) has a c h
                            (λ old e. absurd (cc))
                            (λ m i. In-append_left m s.nodes (edge.to ∷ []) i)
                            (In-append_last edge.to s.nodes))
                    | inr (old, at_to) ↦
                        rw (offer, at_to)
                          (elim (Bool-cases (ltb (threshold + edge.cost) old)) [
                            | inl less ↦ rw less (
                                reach_by-Both edge left s s.nodes has a c h (λ o e. ground arith)
                                  (λ m i. i) (h.keyed edge.to old at_to))
                            | inr more ↦
                                rw more
                                  (skip-Inv edge left s (λ a. (old, at_to, ground arith)) c h, c)
                          ])
                  ])
            ]

      pub relax_all-Inv :
          (left : List TaxiEdge) (s : Search)
          → ((w k : ℕ) → HasEdge w k left → HasEdge w k (edges graph current))
          → IsCurrent threshold current s
          → At left s
          → At [] (relax_all usable destination current threshold left s)
            × IsCurrent threshold current (relax_all usable destination current threshold left s)
      unfolding relax_all
      relax_all-Inv [] s has c h = (h, c)
      relax_all-Inv (edge ∷ left) s has c h =
          let (inv, is_current) =
            relax-Inv edge left s (has edge.to edge.cost (inl (refl, refl))) c h in
          relax_all-Inv left (relax usable destination current threshold edge s)
            (λ w k later. has w k (inr later)) is_current inv
