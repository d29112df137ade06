-- ===== src/TaxiRoute/Invariant.antt =====
-- What the rounds of `ShortestTaxiRoute` keep (internal/modernworld/taxi.go).
use redscarf_proxy.Prelude.{
  ℕ, ◌+◌, ◌≤◌, ◌<◌, ◌≡◌, ◌≢◌, ◌⊎◌, ◌↔◌, inl, inr, refl, sym, arith, ==_iff, ◌==◌, true, false, List,
  [], ◌∷◌, some, Bool-cases,
}
use mathlib.Core.Path.{subst}
use redscarf_proxy.TaxiRoute.Graph.{TaxiEdge, TaxiGraph, edges}
use redscarf_proxy.TaxiRoute.Search.{Search, reach_by}
use redscarf_proxy.TaxiRoute.Walk.{In, HasEdge, Allowed}

abbrev pub targets : TaxiGraph → List ℕ
targets [] = []
targets ((from, edge) ∷ graph) = edge.to ∷ targets graph

-- The node whose edges are looked at has been visited, and its distance is the threshold.
pub record IsCurrent (threshold current : ℕ) (s : Search) : Type 0 where
  pub here : s.visited current ≡ true
  pub at_current : s.distance current ≡ some threshold

module _ (graph : TaxiGraph) (usable : List ℕ) (source destination : ℕ) where
  -- The edge by which a distance was found.
  abbrev pub Link : Search → ℕ → ℕ → Type 0
  Link s n d =
      (p : ℕ) × (k : ℕ) × (e : ℕ) × (s.previous n ≡ some p)
      × (s.visited p ≡ true)
      × (s.distance p ≡ some e)
      × HasEdge n k (edges graph p)
      × Allowed graph usable destination n
      × (d ≡ e + k)

  -- Nodes that are visited are within the threshold and the others beyond it. `left` are the edges of
  -- `current` that are still to come, and a distance leaves `spare` of the budget.
  pub record Inv (budget threshold spare current : ℕ) (left : List TaxiEdge) (s : Search)
      : Type 0 where
    pub keyed : (n d : ℕ) → s.distance n ≡ some d → In n s.nodes
    pub at_source : s.distance source ≡ some 0
    pub settled : (u : ℕ) → s.visited u ≡ true → (d : ℕ) × (s.distance u ≡ some d) × (d ≤ threshold)
    pub waiting : (n d : ℕ) → s.visited n ≡ false → s.distance n ≡ some d → threshold ≤ d
    pub closed :
        (u d w k : ℕ)
        → s.visited u ≡ true
        → s.distance u ≡ some d
        → HasEdge w k (edges graph u)
        → Allowed graph usable destination w
        → ((e : ℕ) × (s.distance w ≡ some e) × (e ≤ d + k)) ⊎ ((u ≡ current) × HasEdge w k left)
    pub linked : (n d : ℕ) → s.distance n ≡ some d → (n ≡ source) ⊎ Link s n d
    pub known :
        (n d : ℕ)
        → s.distance n ≡ some d
        → (n ≢ 0) × In n (source ∷ targets graph) × (d + spare ≤ budget)

  module _ (budget threshold spare current : ℕ) (edge : TaxiEdge) (left : List TaxiEdge)
      (s : Search) where
    -- What is known where `relax` finds a smaller distance.
    pub record Better (nodes : List ℕ) : Type 0 where
      pub fresh : s.visited edge.to ≡ false
      pub here : s.visited current ≡ true
      pub at_current : s.distance current ≡ some threshold
      pub has_edge : HasEdge edge.to edge.cost (edges graph current)
      pub allowed : Allowed graph usable destination edge.to
      pub less : (old : ℕ) → s.distance edge.to ≡ some old → threshold + edge.cost < old
      pub not_zero : edge.to ≢ 0
      pub target : In edge.to (source ∷ targets graph)
      pub affordable : threshold + edge.cost + spare ≤ budget
      pub grown : (m : ℕ) → In m s.nodes → In m nodes
      pub added : In edge.to nodes

    abbrev found : List ℕ → Search
    found nodes = reach_by current edge.to (threshold + edge.cost) (record s { nodes = nodes })

    found-old :
        (nodes : List ℕ) (u d : ℕ)
        → s.visited edge.to ≡ false
        → s.visited u ≡ true
        → ((found nodes).distance u ≡ some d) ↔ (s.distance u ≡ some d)
    unfolding reach_by
    found-old nodes u d fresh v = ground arith

    reach_by-closed :
        (nodes : List ℕ)
        → Better nodes
        → (u d w k : ℕ) → s.distance u ≡ some d
        → ((e : ℕ) × (s.distance w ≡ some e) × (e ≤ d + k))
          ⊎ ((u ≡ current) × HasEdge w k (edge ∷ left))
        → ((e : ℕ) × ((found nodes).distance w ≡ some e) × (e ≤ d + k))
          ⊎ ((u ≡ current) × HasEdge w k left)
    unfolding reach_by
    reach_by-closed nodes b u d w k old (inl (x, at_w, le)) = elim (Bool-cases (w == edge.to)) [
      | inl same ↦ inl (threshold + edge.cost, rw same refl, ground (arith, b.less x))
      | inr other ↦ inl (x, rw other at_w, le)
    ]
    reach_by-closed nodes b u d w k old (inr (is_current, inl (to, cost))) =
        inl (threshold + edge.cost, ground arith, ground (arith, b.at_current))
    reach_by-closed nodes b u d w k old (inr (is_current, inr later)) = inr (is_current, later)

    reach_by-linked :
        (nodes : List ℕ)
        → Better nodes
        → (n d : ℕ) → ((found nodes).distance n ≡ some d)
        → (s.distance n ≡ some d → (n ≡ source) ⊎ Link s n d)
        → (n ≡ source) ⊎ Link (found nodes) n d
    unfolding reach_by
    reach_by-linked nodes b n d e h = elim (Bool-cases (n == edge.to)) [
      | inl same ↦
          let same_node : n ≡ edge.to = (==_iff n edge.to).0 same in
          inr (
            current,
            edge.cost,
            threshold,
            rw same refl,
            b.here,
            (found-old nodes current threshold b.fresh b.here).1 b.at_current,
            subst (λ m. HasEdge m edge.cost (edges graph current)) (sym same_node) b.has_edge,
            subst (λ m. Allowed graph usable destination m) (sym same_node) b.allowed,
            ground arith,
          )
      | inr other ↦ elim (h (rw other at e)) [
        | inl is_source ↦ inl is_source
        | inr (p, k, x, prev, v, at_p, has, allow, sum) ↦
            inr (p, k, x, rw other prev, v, (found-old nodes p x b.fresh v).1 at_p, has, allow, sum)
      ]
    ]

    pub reach_by-Inv :
        (nodes : List ℕ)
        → Inv budget threshold spare current (edge ∷ left) s
        → Better nodes
        → Inv budget threshold spare current left
            (reach_by current edge.to (threshold + edge.cost) (record s { nodes = nodes }))
    unfolding reach_by
    reach_by-Inv nodes h b = record {
      keyed = λ n d e. ground (arith, h.keyed n d, b.grown n, b.added);
      at_source = ground (arith, h.at_source, b.less 0);
      settled = λ u v. ground (arith, h.settled u, b.fresh);
      waiting = λ n d v e. ground (arith, h.waiting n d);
      closed = λ u d w k v e m a.
          reach_by-closed nodes b u d w k ((found-old nodes u d b.fresh v).0 e)
            (h.closed u d w k v ((found-old nodes u d b.fresh v).0 e) m a);
      linked = λ n d e. reach_by-linked nodes b n d e (h.linked n d);
      known = λ n d e. ground (arith, h.known n d, b.not_zero, b.target, b.affordable);
    }
