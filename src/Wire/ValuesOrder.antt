-- ===== src/Wire/ValuesOrder.antt =====
-- internal/modernworld/values_order.go: the order in which the changed fields of a unit and of the
-- active player are written. The arrays of a group are interleaved, element by element.
use redscarf_proxy.Prelude.{
  ℕ, ◌+◌, ◌-◌, ◌*◌, ◌/◌, ◌%◌, ◌≡◌, ◌≤◌, ◌<◌, true, arith, leb, ltb, ◌&&◌, if◌then◌else◌, List, [],
  ◌∷◌,
}

-- The bits of a group are not below its start.
unfoldable pub interleaved_order : ℕ → ℕ → ℕ → ℕ → ℕ
interleaved_order bit start slots arrays =
    start + (bit - start) % slots * arrays + (bit - start) / slots

-- The groups, each with its start, its slots and its arrays.
abbrev pub unit_groups : List (ℕ × ℕ × ℕ)
unit_groups = (117, 10, 5) ∷ (175, 5, 3) ∷ (191, 7, 3) ∷ (213, 7, 2) ∷ []

abbrev pub active_groups : List (ℕ × ℕ × ℕ)
active_groups = (270, 7, 4) ∷ (550, 12, 2) ∷ (1513, 6, 2) ∷ []

unfoldable pub delta_order : List (ℕ × ℕ × ℕ) → ℕ → ℕ
delta_order [] bit = bit
delta_order ((start, slots, arrays) ∷ groups) bit =
    if leb start bit && ltb bit (start + slots * arrays)
    then interleaved_order bit start slots arrays
    else delta_order groups bit

unfoldable pub unit_delta_order : ℕ → ℕ
unit_delta_order bit = delta_order unit_groups bit

unfoldable pub active_delta_order : ℕ → ℕ
active_delta_order bit = delta_order active_groups bit

-- The groups read the other way: as many slots as there were arrays, and as many arrays as slots.
abbrev pub turned : List (ℕ × ℕ × ℕ) → List (ℕ × ℕ × ℕ)
turned [] = []
turned ((start, slots, arrays) ∷ groups) = (start, arrays, slots) ∷ turned groups

-- What a group with its start, slots and arrays does to a bit of its own.
abbrev Turns : ℕ → ℕ → ℕ → ℕ → Type 0
Turns start slots arrays n =
    ((leb start n && ltb n (start + slots * arrays)) ≡ true)
    → (start ≤ interleaved_order n start slots arrays)
      × (interleaved_order n start slots arrays < start + slots * arrays)
      × (interleaved_order (interleaved_order n start slots arrays) start arrays slots ≡ n)

Turns-5_3 : (n : ℕ) → Turns 175 5 3 n
unfolding interleaved_order
Turns-5_3 n h = ground arith

Turns-3_5 : (n : ℕ) → Turns 175 3 5 n
unfolding interleaved_order
Turns-3_5 n h = ground arith

Turns-7_3 : (n : ℕ) → Turns 191 7 3 n
unfolding interleaved_order
Turns-7_3 n h = ground arith

Turns-3_7 : (n : ℕ) → Turns 191 3 7 n
unfolding interleaved_order
Turns-3_7 n h = ground arith

Turns-7_2 : (n : ℕ) → Turns 213 7 2 n
unfolding interleaved_order
Turns-7_2 n h = ground arith

Turns-2_7 : (n : ℕ) → Turns 213 2 7 n
unfolding interleaved_order
Turns-2_7 n h = ground arith

Turns-10_5 : (n : ℕ) → Turns 117 10 5 n
unfolding interleaved_order
Turns-10_5 n h = ground arith

Turns-5_10 : (n : ℕ) → Turns 117 5 10 n
unfolding interleaved_order
Turns-5_10 n h = ground arith

-- The order of the fields of a unit is one of all bits, each once: the bit is found from its place,
-- and the place from its bit, by turning the groups.
pub unit_delta_order_turns :
    (n : ℕ)
    → (delta_order (turned unit_groups) (unit_delta_order n) ≡ n)
      × (unit_delta_order (delta_order (turned unit_groups) n) ≡ n)
unfolding unit_delta_order delta_order
unit_delta_order_turns n = (
  ground (arith, Turns-10_5 n, Turns-5_3 n, Turns-7_3 n, Turns-7_2 n),
  ground (arith, Turns-5_10 n, Turns-3_5 n, Turns-3_7 n, Turns-2_7 n),
)

-- The order of the fields of the active player is one of all bits, each once: the bit is found from
-- its place, and the place from its bit, by turning the groups.
active_delta_order_turns :
    (n : ℕ)
    → (delta_order (turned active_groups) (active_delta_order n) ≡ n)
      × (active_delta_order (delta_order (turned active_groups) n) ≡ n)
unfolding active_delta_order delta_order interleaved_order
active_delta_order_turns n = (ground arith, ground arith)
