-- ===== src/TaxiRoute/Trace.antt =====
-- The way back along a route, and what every walk costs (internal/modernworld/taxi.go).
use redscarf_proxy.Prelude.{
  ℕ, zero, suc, ◌+◌, ◌≤◌, ◌<◌, ◌≡◌, ◌⊎◌, inl, inr, refl, sym, ap, ◌∙◌, arith, ==_iff, ◌==◌, true,
  false, List, [], ◌∷◌, ◌++◌, some, Bool-cases,
}
use mathlib.Core.Path.{subst}
use mathlib.Core.List.{reverse, reverse-append}
use redscarf_proxy.TaxiRoute.Graph.{TaxiGraph, edges}
use redscarf_proxy.TaxiRoute.Search.{Search, extend, trace}
use redscarf_proxy.TaxiRoute.Walk.{HasEdge, Allowed, Steps, IsPriced}
use redscarf_proxy.TaxiRoute.Relax.{edges_bounds}
use redscarf_proxy.TaxiRoute.Ends.{Between}

module _ (graph : TaxiGraph) (usable : List ℕ) (source destination : ℕ) where
  Steps-snoc :
      (u : ℕ) (ws : List ℕ) (p e n k : ℕ)
      → Steps graph usable destination u ws p e
      → HasEdge n k (edges graph p)
      → Allowed graph usable destination n
      → Steps graph usable destination u (ws ++ (n ∷ [])) n (e + k)
  Steps-snoc u [] p e n k (same, free) has a =
      (k, 0, subst (λ m. HasEdge n k (edges graph m)) (sym same) has, a, (refl, refl), omega arith)
  Steps-snoc u (w ∷ ws) p e n k (j, rest, first, b, steps, sum) has a =
      (j, rest + k, first, b, Steps-snoc w ws p rest n k steps has a, omega arith)

  module _ (budget threshold spare limit : ℕ) (s : Search) (priced : IsPriced limit graph)
      (h : Between graph usable source destination budget threshold spare s) where
    -- From a node that was reached, the trace is a route of its distance.
    pub trace-Steps :
        (fuel n d : ℕ)
        → s.distance n ≡ some d
        → d < fuel
        → (back : List ℕ) × (ws : List ℕ) × (trace fuel source s n ≡ some (some back))
          × (reverse back ≡ source ∷ ws)
          × Steps graph usable destination source ws n d
    unfolding trace extend
    trace-Steps zero n d e lt = absurd (omega arith)
    trace-Steps (suc fuel) n d e lt = elim (Bool-cases (n == source)) [
      | inl same ↦
          let is_source : n ≡ source = (==_iff n source).0 same in
          (
            n ∷ [],
            [],
            rw same refl,
            ap (λ m. m ∷ []) is_source,
            (sym is_source, ground (arith, h.at_source)),
          )
      | inr other ↦ elim (h.linked n d e) [
        | inl is_source ↦ absurd (ground arith)
        | inr (p, k, x, prev, v, at_p, has, allow, sum) ↦
            let (back, ws, traced, turned, steps) =
              trace-Steps fuel p x at_p
                (omega (arith, edges_bounds limit graph p n k priced has)) in
            (
              n ∷ back,
              ws ++ (n ∷ []),
              rw (other, prev, traced) refl,
              reverse-append (n ∷ []) back ∙ ap (λ xs. xs ++ (n ∷ [])) turned,
              subst (λ c. Steps graph usable destination source (ws ++ (n ∷ [])) n c) (sym sum)
                  (Steps-snoc source ws p x n k steps has allow),
            )
      ]
    ]

    -- Within this cost a node has been visited, or one that has not is within it.
    abbrev pub Covered : ℕ → ℕ → Type 0
    Covered u cost =
        ((d : ℕ) × (s.visited u ≡ true) × (s.distance u ≡ some d) × (d ≤ cost))
        ⊎ ((n : ℕ) × (d : ℕ) × (s.visited n ≡ false) × (s.distance n ≡ some d) × (d ≤ cost))

    pub Steps-Covered :
        (u : ℕ) (ws : List ℕ) (v base cost : ℕ)
        → Covered u base
        → Steps graph usable destination u ws v cost
        → Covered v (base + cost)
    Steps-Covered u [] v base cost c (same, free) =
        let e : base ≡ base + cost = omega arith in
        subst (λ n. Covered n (base + cost)) same (subst (Covered u) e c)
    Steps-Covered u (w ∷ ws) v base cost c (k, rest, has, a, steps, sum) =
        let e : base + k + rest ≡ base + cost = omega arith in
        subst (Covered v) e (Steps-Covered w ws v (base + k) rest (next c) steps)
      where
        next : Covered u base → Covered w (base + k)
        next (inl (d, v, at_u, near)) = elim (h.closed u d w k v at_u has a) [
          | inl (x, at_w, le) ↦ elim (Bool-cases (s.visited w)) [
            | inl seen ↦ inl (x, seen, at_w, omega arith)
            | inr waits ↦ inr (w, x, waits, at_w, omega arith)
          ]
          | inr nobody ↦ absurd nobody.1
        ]
        next (inr (n, d, waits, at_n, near)) = inr (n, d, waits, at_n, omega arith)
