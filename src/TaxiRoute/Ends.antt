-- ===== src/TaxiRoute/Ends.antt =====
-- The search of `ShortestTaxiRoute` ends (internal/modernworld/taxi.go).
use redscarf_proxy.Prelude.{
  ℕ, zero, suc, ◌+◌, ◌*◌, ◌≤◌, ◌<◌, ◌≡◌, ◌≢◌, ◌⊎◌, inl, inr, refl, sym, ap, ◌∙◌, arith, ==_iff,
  ◌==◌, ◌||◌, true, false, List, [], ◌∷◌, some, Bool-cases,
}
use mathlib.Core.Path.{subst}
use redscarf_proxy.TaxiRoute.Graph.{TaxiEdge, TaxiGraph, edges}
use redscarf_proxy.TaxiRoute.Search.{
  Search, infinity, nearest, visit, reach_by, offer, relax, relax_all, search_loop,
}
use redscarf_proxy.TaxiRoute.Walk.{HasEdge, Allowed, IsPriced, IsOrder}
use redscarf_proxy.TaxiRoute.Invariant.{IsCurrent, targets, Inv, Link}
use redscarf_proxy.TaxiRoute.Relax.{relax_all-Inv}
use redscarf_proxy.TaxiRoute.Rounds.{nearest-Nearest, visiting, unvisited, unvisited-lt}

relax_all-visited :
    (usable : List ℕ) (destination current best : ℕ) (left : List TaxiEdge) (s : Search)
    → (relax_all usable destination current best left s).visited ≡ s.visited
unfolding relax_all relax offer reach_by
relax_all-visited usable destination current best [] s = refl
relax_all-visited usable destination current best (edge ∷ left) s =
    relax_all-visited usable destination current best left
      (relax usable destination current best edge s)
    ∙ relax-visited usable destination current best edge s
  where
    relax-visited :
        (usable : List ℕ) (destination current best : ℕ) (edge : TaxiEdge) (s : Search)
        → (relax usable destination current best edge s).visited ≡ s.visited
    relax-visited usable destination current best edge s = ground arith

module _ (graph : TaxiGraph) (usable : List ℕ) (source destination : ℕ) where
  -- Between two rounds.
  abbrev pub Between : ℕ → ℕ → ℕ → Search → Type 0
  Between budget threshold spare s =
      Inv graph usable source destination budget threshold spare 0 [] s

  -- At the end the destination has its distance and no node that is not visited is nearer, or every
  -- node that was reached has been visited.
  pub record Finished (budget threshold spare : ℕ) (s : Search) : Type 0 where
    pub between : Between budget threshold spare s
    pub unvisited_destination : s.visited destination ≡ false
    pub last :
        ((best : ℕ) × (s.distance destination ≡ some best)
          × ((n v : ℕ) → s.visited n ≡ false → s.distance n ≡ some v → best ≤ v))
        ⊎ ((n v : ℕ) → s.visited n ≡ false → s.distance n ≢ some v)

  visit-Inv :
      (budget threshold spare spare' current best : ℕ) (s : Search)
      → Between budget threshold spare s
      → s.visited current ≡ false
      → s.distance current ≡ some best
      → ((n v : ℕ) → s.visited n ≡ false → s.distance n ≡ some v → best ≤ v)
      → spare' ≤ spare
      → Inv graph usable source destination budget best spare' current
          (edges graph current)
          (visit current s)
        × IsCurrent best current (visit current s)
  unfolding visit
  visit-Inv budget threshold spare spare' current best s h fresh at_current least enough = (
    record {
      keyed = h.keyed;
      at_source = h.at_source;
      settled = λ u v. settled u v;
      waiting = λ n d v e. ground (arith, least n d);
      closed = λ u d w k v e m a. closed u d w k v e m a;
      linked = λ n d e. linked n d (h.linked n d e);
      known =
          λ n d e. let (not_zero, target, cheap) = h.known n d e in (not_zero, target, omega arith);
    },
    record { here = ground arith; at_current = at_current },
  )
    where
      settled :
          (u : ℕ)
          → (visit current s).visited u ≡ true
          → (d : ℕ) × (s.distance u ≡ some d) × (d ≤ best)
      settled u v = elim (Bool-cases (u == current)) [
        | inl same ↦ (best, ground arith, omega arith)
        | inr other ↦
            let (d, at_u, near) = h.settled u (rw other at v) in
            (d, at_u, omega (arith, h.waiting current best fresh at_current))
      ]

      closed :
          (u d w k : ℕ)
          → (visit current s).visited u ≡ true
          → s.distance u ≡ some d
          → HasEdge w k (edges graph u)
          → Allowed graph usable destination w
          → ((e : ℕ) × (s.distance w ≡ some e) × (e ≤ d + k))
            ⊎ ((u ≡ current) × HasEdge w k (edges graph current))
      closed u d w k v e m a = elim (Bool-cases (u == current)) [
        | inl same ↦
            let is_current : u ≡ current = (==_iff u current).0 same in
            inr (is_current, subst (λ x. HasEdge w k (edges graph x)) is_current m)
        | inr other ↦ elim (h.closed u d w k (rw other at v) e m a) [
          | inl found ↦ inl found
          | inr none_left ↦ absurd none_left.1
        ]
      ]

      linked :
          (n d : ℕ)
          → (n ≡ source) ⊎ Link graph usable source destination s n d
          → (n ≡ source) ⊎ Link graph usable source destination (visit current s) n d
      linked n d (inl is_source) = inl is_source
      linked n d (inr (p, k, x, prev, v, at_p, has, allow, sum)) =
          inr (p, k, x, prev, ground arith, at_p, has, allow, sum)

  -- With no edges left it does not matter whose they were.
  none_left :
      (budget threshold spare current : ℕ) (s : Search)
      → Inv graph usable source destination budget threshold spare current [] s
      → Between budget threshold spare s
  none_left budget threshold spare current s h = record {
    keyed = h.keyed;
    at_source = h.at_source;
    settled = h.settled;
    waiting = h.waiting;
    closed = λ u d w k v e m a. ground (arith, h.closed u d w k v e m a);
    linked = h.linked;
    known = h.known;
  }

  abbrev pub nodes : List ℕ
  nodes = source ∷ targets graph

  module _ (limit budget : ℕ) (order : ℕ → List ℕ → List ℕ) (priced : IsPriced limit graph)
      (some_destination : destination ≢ 0) (small : budget < infinity)
      (complete : IsOrder order) where
    abbrev pub spare_of : Search → ℕ
    spare_of s = unvisited nodes s.visited * limit

    room : (a b : ℕ) → a < b → a * limit + limit ≤ b * limit
    room a b h = grind arith

    -- One round that goes on.
    round-Between :
        (threshold current best : ℕ) (s : Search)
        → Between budget threshold (spare_of s) s
        → s.visited current ≡ false
        → s.distance current ≡ some best
        → ((n v : ℕ) → s.visited n ≡ false → s.distance n ≡ some v → best ≤ v)
        → (unvisited nodes (visiting current s.visited) < unvisited nodes s.visited)
          × Between budget best
              (unvisited nodes (visiting current s.visited) * limit)
              (relax_all usable destination current best (edges graph current) (visit current s))
    round-Between threshold current best s h fresh at_current least =
        let (not_zero, target, cheap) = h.known current best at_current in
        let fewer : unvisited nodes (visiting current s.visited) < unvisited nodes s.visited =
          unvisited-lt nodes current s.visited target fresh in
        let cost : unvisited nodes (visiting current s.visited) * limit + limit ≤ spare_of s =
          room _ _ fewer in
        let (inv, here) =
          visit-Inv budget threshold (spare_of s)
            (unvisited nodes (visiting current s.visited) * limit) current best s h fresh at_current
            least (omega arith) in
        let (after, still) =
          relax_all-Inv graph usable source destination limit budget best
            (unvisited nodes (visiting current s.visited) * limit) current priced some_destination
            (omega arith) (edges graph current) (visit current s) (λ w k has. has) here inv in
        (fewer, none_left budget best _ current _ after)

    pub search_loop-Finished :
        (fuel threshold : ℕ) (s : Search)
        → unvisited nodes s.visited < fuel
        → Between budget threshold (spare_of s) s
        → s.visited destination ≡ false
        → (t : Search) × (last : ℕ) × (search_loop graph order usable fuel destination s ≡ some t)
          × Finished budget last (spare_of t) t
    unfolding search_loop
    search_loop-Finished zero threshold s enough h away = absurd (omega arith)
    search_loop-Finished (suc fuel) threshold s enough h away =
        let current : ℕ = (nearest s (order fuel s.nodes) (0, infinity)).0 in
        let best : ℕ = (nearest s (order fuel s.nodes) (0, infinity)).1 in
        let near = nearest-Nearest s (order fuel s.nodes) (0, infinity) in
        let least : (n v : ℕ) → s.visited n ≡ false → s.distance n ≡ some v → best ≤ v =
          λ n v w e. near.nearest_of n v (complete fuel n s.nodes (h.keyed n v e)) w e in
        elim (Bool-cases (current == 0 || current == destination)) [
          | inl stop ↦ (
            s,
            threshold,
            rw (search_loop, stop) refl,
            record {
              between = h;
              unvisited_destination = away;
              last = elim near.waits [
                | inl init ↦ inr (λ n v w e. absurd (
                    omega (
                      arith,
                      least n v w e,
                      ap (λ (x : ℕ × ℕ). x.1) init,
                      (h.known n v e).2,
                      small,
                    )))
                | inr (fresh, at_current) ↦
                    let is_destination : current ≡ destination =
                      ground (arith, h.known current best at_current) in
                    inl
                      (best, subst (λ n. s.distance n ≡ some best) is_destination at_current, least)
              ];
            },
          )
          | inr go ↦ elim near.waits [
            | inl init ↦ absurd (ground arith)
            | inr (fresh, at_current) ↦
                let t : Search =
                  relax_all usable destination current best (edges graph current)
                    (visit current s) in
                let seen : t.visited ≡ visiting current s.visited =
                  unfold visit in
                  (relax_all-visited usable destination current best (edges graph current)
                    (visit current s)) in
                let (fewer, between) =
                  round-Between threshold current best s h fresh at_current least in
                rw (search_loop, go)
                  (search_loop-Finished fuel best t (rw seen (omega arith))
                    (subst (λ v. Between budget best (unvisited nodes v * limit) t) (sym seen)
                      between)
                    (rw seen (ground arith)))
          ]
        ]
