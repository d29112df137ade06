-- ===== src/TaxiRoute/Rounds.antt =====
-- One round of `ShortestTaxiRoute`: the nearest node, and how many are left (internal/modernworld/taxi.go).
use redscarf_proxy.Prelude.{
  ℕ, suc, ◌≤◌, ◌<◌, ◌≡◌, ◌⊎◌, inl, inr, refl, arith, ◌==◌, if◌then◌else◌, Bool, true, false, List,
  [], ◌∷◌, some, length,
}
use redscarf_proxy.TaxiRoute.Search.{Search, nearer, nearest}
use redscarf_proxy.TaxiRoute.Walk.{In}

-- What the search for the nearest node finds.
pub record Nearest (s : Search) (nodes : List ℕ) (found result : ℕ × ℕ) : Type 0 where
  pub at_most : result.1 ≤ found.1
  pub waits :
      (result ≡ found) ⊎ ((s.visited result.0 ≡ false) × (s.distance result.0 ≡ some result.1))
  pub nearest_of :
      (n v : ℕ) → In n nodes → s.visited n ≡ false → s.distance n ≡ some v → result.1 ≤ v

nearer-Nearest :
    (s : Search) (node : ℕ) (found : ℕ × ℕ) → Nearest s (node ∷ []) found (nearer s node found)
unfolding nearer
nearer-Nearest s node (current, best) = record {
  at_most = ground arith;
  waits = ground arith;
  nearest_of = λ n v i w e. ground arith;
}

pub nearest-Nearest :
    (s : Search) (nodes : List ℕ) (found : ℕ × ℕ) → Nearest s nodes found (nearest s nodes found)
unfolding nearest
nearest-Nearest s [] found = record {
  at_most = omega arith;
  waits = inl refl;
  nearest_of = λ n v i. elim i [ ];
}
nearest-Nearest s (node ∷ nodes) found =
    let first = nearer-Nearest s node found in
    let rest = nearest-Nearest s nodes (nearer s node found) in
    record {
      at_most = omega (arith, first.at_most, rest.at_most);
      waits = later first.waits rest.waits;
      nearest_of = λ n v i w e. of n v w e i first rest;
    }
  where
    later :
        {a b c : ℕ × ℕ}
        → (a ≡ c) ⊎ ((s.visited a.0 ≡ false) × (s.distance a.0 ≡ some a.1))
        → (b ≡ a) ⊎ ((s.visited b.0 ≡ false) × (s.distance b.0 ≡ some b.1))
        → (b ≡ c) ⊎ ((s.visited b.0 ≡ false) × (s.distance b.0 ≡ some b.1))
    later one two = ground arith

    of :
        (n v : ℕ)
        → s.visited n ≡ false
        → s.distance n ≡ some v
        → In n (node ∷ nodes)
        → Nearest s (node ∷ []) found (nearer s node found)
        → Nearest s nodes (nearer s node found) (nearest s nodes (nearer s node found))
        → (nearest s nodes (nearer s node found)).1 ≤ v
    of n v w e (inl same) one two = omega (arith, one.nearest_of n v (inl same) w e, two.at_most)
    of n v w e (inr more) one two = two.nearest_of n v more w e

-- The nodes of a list that have not been visited.
unfoldable pub unvisited : List ℕ → (ℕ → Bool) → ℕ
unvisited [] visited = 0
unvisited (n ∷ ns) visited = let rest = unvisited ns visited in if visited n then rest else suc rest

abbrev pub visiting : ℕ → (ℕ → Bool) → ℕ → Bool
visiting c visited n = if n == c then true else visited n

unvisited-le :
    (ns : List ℕ) (c : ℕ) (visited : ℕ → Bool)
    → unvisited ns (visiting c visited) ≤ unvisited ns visited
unfolding unvisited
unvisited-le [] c visited = omega arith
unvisited-le (n ∷ ns) c visited = ground (arith, unvisited-le ns c visited)

pub unvisited-lt :
    (ns : List ℕ) (c : ℕ) (visited : ℕ → Bool)
    → In c ns
    → visited c ≡ false
    → unvisited ns (visiting c visited) < unvisited ns visited
unfolding unvisited
unvisited-lt [] c visited i v = elim i [ ]
unvisited-lt (n ∷ ns) c visited i v =
    ground (arith, unvisited-le ns c visited, unvisited-lt ns c visited)

pub unvisited-le-length : (ns : List ℕ) (visited : ℕ → Bool) → unvisited ns visited ≤ length ns
unfolding unvisited
unvisited-le-length [] visited = omega arith
unvisited-le-length (n ∷ ns) visited = ground (arith, unvisited-le-length ns visited)
