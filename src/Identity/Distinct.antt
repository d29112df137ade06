-- ===== src/Identity/Distinct.antt =====
-- Objects of internal/modernworld/active_player.go with different identities keep them apart.
use redscarf_proxy.Prelude.{
  ℕ, ◌+◌, ◌*◌, ◌-◌, ◌/◌, ◌%◌, ◌^◌, ◌<◌, ◌≡◌, ◌≢◌, ◌==◌, ◌&&◌, refl, sym, ap, ◌∙◌, arith, bit_or,
  inl, inr, Bool-cases, if◌then◌else◌, false, some,
}
use redscarf_proxy.Prelude.Bits.{bit_or-below}
use redscarf_proxy.Guid.{Guid128}
use redscarf_proxy.Identity.{
  modern_player_guid, modern_type, transport_guid, map_object_guid, modern_legacy_guid,
  modern_guid_for_legacy, legacy_item_guid_from_modern,
}

-- The kinds of 64-bit identities that the server gives out, by their parts. `family` is the type on the
-- 3.4.3 side.
pub data LegacyName : Type 0 where
  player : ℕ → LegacyName
  item : ℕ → LegacyName
  transport : ℕ → ℕ → LegacyName
  ship : ℕ → LegacyName
  creature pet vehicle game_object dynamic_object corpse : ℕ → ℕ → LegacyName

abbrev object_value : ℕ → ℕ → ℕ → ℕ
object_value high entry counter = high * 2 ^ 48 + entry * 2 ^ 24 + counter

-- The number on the wire.
unfoldable pub value : LegacyName → ℕ
value (player counter) = counter
value (item counter) = 0x4000 * 2 ^ 48 + counter
value (transport entry counter) = object_value 0xf120 entry counter
value (ship counter) = 0x1fc0 * 2 ^ 48 + counter
value (creature entry counter) = object_value 0xf130 entry counter
value (vehicle entry counter) = object_value 0xf150 entry counter
value (pet entry counter) = object_value 0xf140 entry counter
value (game_object entry counter) = object_value 0xf110 entry counter
value (dynamic_object entry counter) = object_value 0xf100 entry counter
value (corpse entry counter) = object_value 0xf101 entry counter

abbrev FitsObject : ℕ → ℕ → Type 0
FitsObject entry counter = (entry < 2 ^ 23) × (counter < 2 ^ 24)

-- The parts have the widths that the 3.4.3 side keeps.
abbrev pub Fits : LegacyName → Type 0
Fits (player counter) = (0 < counter) × (counter < 2 ^ 32)
Fits (item counter) = (0 < counter) × (counter < 2 ^ 32)
Fits (transport entry counter) = (entry < 2 ^ 24) × (counter < 2 ^ 20)
Fits (ship counter) = (0 < counter) × (counter < 2 ^ 20)
Fits (creature entry counter) = FitsObject entry counter
Fits (vehicle entry counter) = FitsObject entry counter
Fits (pet entry counter) = FitsObject entry counter
Fits (game_object entry counter) = FitsObject entry counter
Fits (dynamic_object entry counter) = FitsObject entry counter
Fits (corpse entry counter) = FitsObject entry counter

abbrev object_high : ℕ → ℕ → ℕ
object_high type entry = type * 2 ^ 58 + 2 ^ 42 + entry * 2 ^ 6

map_object_guid-high :
    (type guid entry : ℕ)
    → entry < 2 ^ 23
    → (map_object_guid type guid entry).high ≡ object_high type entry
unfolding map_object_guid
map_object_guid-high type guid entry h =
    let first : bit_or (type * 2 ^ 58) (1 * 2 ^ 42) ≡ (type * 2 ^ 16 + 1) * 2 ^ 42 =
      omega (arith, bit_or-below 58 type (1 * 2 ^ 42) (omega arith)) in
    rw first
      (omega (arith, bit_or-below 42 (type * 2 ^ 16 + 1) (entry % 2 ^ 23 * 2 ^ 6) (omega arith)))

map_object_guid-parts :
    (type guid entry counter : ℕ)
    → entry < 2 ^ 23
    → guid % 2 ^ 24 ≡ counter
    → map_object_guid type guid entry ≡ record { low = counter; high = object_high type entry }
map_object_guid-parts type guid entry counter h low =
    ground (arith, map_object_guid-high type guid entry h, map_object_guid-low type guid entry)
  where
    map_object_guid-low :
        (type guid entry : ℕ) → (map_object_guid type guid entry).low ≡ guid % 2 ^ 24
    map_object_guid-low type guid entry = unfold map_object_guid in refl

transport_guid-high :
    (counter entry : ℕ)
    → counter < 2 ^ 20
    → entry < 2 ^ 38
    → (transport_guid counter entry).high ≡ (6 * 2 ^ 20 + counter) * 2 ^ 38 + entry
unfolding transport_guid
transport_guid-high counter entry h k =
    let first : bit_or (6 * 2 ^ 58) (counter % 2 ^ 20 * 2 ^ 38) ≡ (6 * 2 ^ 20 + counter) * 2 ^ 38 =
      omega (arith, bit_or-below 58 6 (counter % 2 ^ 20 * 2 ^ 38) (omega arith)) in
    rw first (bit_or-below 38 (6 * 2 ^ 20 + counter) entry k)

transport_guid-parts :
    (counter entry : ℕ)
    → counter < 2 ^ 20
    → entry < 2 ^ 38
    → transport_guid counter entry
      ≡ record { low = 0; high = (6 * 2 ^ 20 + counter) * 2 ^ 38 + entry }
transport_guid-parts counter entry h k =
    ground (arith, transport_guid-high counter entry h k, transport_guid-low counter entry)
  where
    transport_guid-low : (counter entry : ℕ) → (transport_guid counter entry).low ≡ 0
    transport_guid-low counter entry = unfold transport_guid in refl

-- What each kind becomes.
abbrev named : LegacyName → Guid128
named (player counter) = record { low = counter; high = 2 * 2 ^ 58 + 2 ^ 42 }
named (item counter) = record { low = counter; high = 3 * 2 ^ 58 + 2 ^ 42 }
named (transport entry counter) = record {
  low = 0;
  high = (6 * 2 ^ 20 + counter) * 2 ^ 38 + (if entry == 0 then 2 ^ 32 - 1 else entry);
}
named (ship counter) = record { low = 0; high = (6 * 2 ^ 20 + counter) * 2 ^ 38 }
named (creature entry counter) = record { low = counter; high = object_high 8 entry }
named (vehicle entry counter) = record { low = counter; high = object_high 9 entry }
named (pet entry counter) = record { low = counter; high = object_high 10 entry }
named (game_object entry counter) = record { low = counter; high = object_high 11 entry }
named (dynamic_object entry counter) = record { low = counter; high = object_high 12 entry }
named (corpse entry counter) = record { low = counter; high = object_high 14 entry }

-- The parts of the number of a map object.
object_value_parts :
    (high entry counter : ℕ)
    → entry < 2 ^ 24
    → counter < 2 ^ 24
    → (object_value high entry counter / 2 ^ 48 ≡ high)
      × (object_value high entry counter / 2 ^ 24 % 2 ^ 24 ≡ entry)
      × (object_value high entry counter % 2 ^ 24 ≡ counter)
object_value_parts high entry counter h k = omega arith

modern-map_object :
    (g high type entry map_id : ℕ)
    → (g == 0) ≡ false
    → g / 2 ^ 48 ≡ high
    → g / 2 ^ 24 % 2 ^ 24 ≡ entry
    → (high == 0) ≡ false
    → (high == 0x4000) ≡ false
    → (high == 0x4700) ≡ false
    → (high == 0xf120) ≡ false
    → (high == 0x1fc0) ≡ false
    → modern_type high ≡ some type
    → modern_guid_for_legacy g map_id ≡ map_object_guid type g entry
unfolding modern_guid_for_legacy modern_legacy_guid
modern-map_object g high type entry map_id positive is_high is_entry a b c d e t =
    rw (modern_legacy_guid, positive, is_high, a, b, c, d, e, t, is_entry) refl

map_object-named :
    (high type entry counter map_id : ℕ)
    → (high == 0) ≡ false
    → (high == 0x4000) ≡ false
    → (high == 0x4700) ≡ false
    → (high == 0xf120) ≡ false
    → (high == 0x1fc0) ≡ false
    → modern_type high ≡ some type
    → FitsObject entry counter
    → modern_guid_for_legacy (object_value high entry counter) map_id
      ≡ record { low = counter; high = object_high type entry }
map_object-named high type entry counter map_id a b c d e t fit =
    let g : ℕ = object_value high entry counter in
    let (is_high, is_entry, is_counter) =
      object_value_parts high entry counter (omega arith) fit.1 in
    let positive : (g == 0) ≡ false = ground arith in
    modern-map_object g high type entry map_id positive is_high is_entry a b c d e t
    ∙ map_object_guid-parts type g entry counter fit.0 is_counter

modern-player :
    (g map_id : ℕ)
    → (g == 0) ≡ false
    → g / 2 ^ 48 ≡ 0
    → g % 2 ^ 32 ≡ g
    → modern_guid_for_legacy g map_id ≡ record { low = g; high = 2 * 2 ^ 58 + 2 ^ 42 }
unfolding modern_guid_for_legacy modern_legacy_guid modern_player_guid
modern-player g map_id positive is_high low =
    rw (modern_legacy_guid, positive, is_high, modern_player_guid, low) refl

modern-item :
    (g counter map_id : ℕ)
    → (g == 0) ≡ false
    → g / 2 ^ 48 ≡ 0x4000
    → g % 2 ^ 32 ≡ counter
    → modern_guid_for_legacy g map_id ≡ record { low = counter; high = 3 * 2 ^ 58 + 2 ^ 42 }
unfolding modern_guid_for_legacy modern_legacy_guid
modern-item g counter map_id positive is_high low =
    rw (modern_legacy_guid, positive, is_high, low) refl

modern-transport :
    (g entry counter map_id : ℕ)
    → (g == 0) ≡ false
    → g / 2 ^ 48 ≡ 0xf120
    → g / 2 ^ 24 % 2 ^ 24 ≡ entry
    → g % 2 ^ 24 ≡ counter
    → modern_guid_for_legacy g map_id
      ≡ transport_guid counter (if entry == 0 then 2 ^ 32 - 1 else entry)
unfolding modern_guid_for_legacy modern_legacy_guid
modern-transport g entry counter map_id positive is_high is_entry low =
    rw (modern_legacy_guid, positive, is_high, is_entry, low) refl

modern-ship :
    (g counter map_id : ℕ)
    → (g == 0) ≡ false
    → g / 2 ^ 48 ≡ 0x1fc0
    → g % 2 ^ 32 % 2 ^ 20 ≡ counter
    → modern_guid_for_legacy g map_id
      ≡ record { low = 0; high = bit_or (6 * 2 ^ 58) (counter * 2 ^ 38) }
unfolding modern_guid_for_legacy modern_legacy_guid
modern-ship g counter map_id positive is_high low =
    rw (modern_legacy_guid, positive, is_high, low) refl

-- Each kind of identity becomes what `named` says.
modern-value :
    (n : LegacyName) (map_id : ℕ) → Fits n → modern_guid_for_legacy (value n) map_id ≡ named n
unfolding value modern_type
modern-value (player counter) map_id h =
    modern-player counter map_id (ground arith) (omega arith) (omega arith)
modern-value (item counter) map_id h =
    modern-item (0x4000 * 2 ^ 48 + counter) counter map_id (ground arith) (omega arith)
      (omega arith)
modern-value (transport entry counter) map_id h =
    let (is_high, is_entry, is_counter) =
      object_value_parts 0xf120 entry counter h.0 (omega arith) in
    let wide : (if entry == 0 then 2 ^ 32 - 1 else entry) < 2 ^ 38 = ground arith in
    modern-transport (object_value 0xf120 entry counter) entry counter map_id (ground arith) is_high
      is_entry is_counter
    ∙ transport_guid-parts counter _ h.1 wide
modern-value (ship counter) map_id h =
    modern-ship (0x1fc0 * 2 ^ 48 + counter) counter map_id (ground arith) (omega arith)
      (omega arith)
    ∙ ap (λ (n : ℕ). record { low = 0; high = n })
        (bit_or-below 58 6 (counter * 2 ^ 38) (omega arith) ∙ (omega arith))
modern-value (creature entry counter) map_id h =
    map_object-named 0xf130 8 entry counter map_id refl refl refl refl refl refl h
modern-value (vehicle entry counter) map_id h =
    map_object-named 0xf150 9 entry counter map_id refl refl refl refl refl refl h
modern-value (pet entry counter) map_id h =
    map_object-named 0xf140 10 entry counter map_id refl refl refl refl refl refl h
modern-value (game_object entry counter) map_id h =
    map_object-named 0xf110 11 entry counter map_id refl refl refl refl refl refl h
modern-value (dynamic_object entry counter) map_id h =
    map_object-named 0xf100 12 entry counter map_id refl refl refl refl refl refl h
modern-value (corpse entry counter) map_id h =
    map_object-named 0xf101 14 entry counter map_id refl refl refl refl refl refl h

object_of : ℕ → ℕ → ℕ → LegacyName
object_of type entry counter =
    if type == 8
    then creature entry counter
    else if type == 9
    then vehicle entry counter
    else if type == 10
    then pet entry counter
    else if type == 11
    then game_object entry counter
    else if type == 12
    then dynamic_object entry counter
    else corpse entry counter

-- The name that an identity of the 3.4.3 side was made from.
recovered : Guid128 → LegacyName
recovered guid =
    let type : ℕ = guid.high / 2 ^ 58 in
    let entry : ℕ = guid.high % 2 ^ 38 in
    let counter : ℕ = guid.high / 2 ^ 38 % 2 ^ 20 in
    if type == 2
    then player guid.low
    else if type == 3
    then item guid.low
    else if type == 6
    then (if entry == 0
        then ship counter
        else transport (if entry == 2 ^ 32 - 1 then 0 else entry) counter)
    else object_of type (guid.high % 2 ^ 42 / 2 ^ 6) guid.low

recovered-named : (n : LegacyName) → Fits n → recovered (named n) ≡ n
unfolding recovered object_of
recovered-named (player counter) h = refl
recovered-named (item counter) h = refl
recovered-named (transport entry counter) h = elim (Bool-cases (entry == 0)) [
  | inl zero_entry ↦ rw (zero_entry, recovered) (ground arith)
  | inr other ↦ rw (other, recovered) (ground arith)
]
recovered-named (ship counter) h = ground arith
recovered-named (creature entry counter) h = ground arith
recovered-named (vehicle entry counter) h = ground arith
recovered-named (pet entry counter) h = ground arith
recovered-named (game_object entry counter) h = ground arith
recovered-named (dynamic_object entry counter) h = ground arith
recovered-named (corpse entry counter) h = ground arith

named-ne-zero : (n : LegacyName) → ((named n).low == 0 && (named n).high == 0) ≡ false
named-ne-zero (player counter) = ground arith
named-ne-zero (item counter) = ground arith
named-ne-zero (transport entry counter) = ground arith
named-ne-zero (ship counter) = ground arith
named-ne-zero n = ground arith

pub modern_guid-ne-zero :
    (n : LegacyName) (map_id : ℕ)
    → Fits n
    → ((modern_guid_for_legacy (value n) map_id).low == 0
        && (modern_guid_for_legacy (value n) map_id).high == 0)
      ≡ false
modern_guid-ne-zero n map_id h = rw (modern-value n map_id h) (named-ne-zero n)

pub modern_guid_injective :
    (a b : LegacyName) (map_id other_map_id : ℕ)
    → Fits a
    → Fits b
    → modern_guid_for_legacy (value a) map_id ≡ modern_guid_for_legacy (value b) other_map_id
    → a ≡ b
modern_guid_injective a b map_id other_map_id h k e =
    let same : named a ≡ named b =
      sym (modern-value a map_id h) ∙ e ∙ modern-value b other_map_id k in
    sym (recovered-named a h) ∙ ap recovered same ∙ recovered-named b k

-- Objects with different names, whose parts have the widths that the 3.4.3 side keeps, have different
-- identities there, on any two maps.
pub modern_guid_for_legacy-ne :
    (a b : LegacyName) (map_id other_map_id : ℕ)
    → Fits a
    → Fits b
    → a ≢ b
    → modern_guid_for_legacy (value a) map_id ≢ modern_guid_for_legacy (value b) other_map_id
modern_guid_for_legacy-ne a b map_id other_map_id h k apart same =
    apart (modern_guid_injective a b map_id other_map_id h k same)

-- The identity of an item is turned back into the item's number.
pub legacy_item-modern_guid :
    (counter map_id : ℕ)
    → Fits (item counter)
    → legacy_item_guid_from_modern (modern_guid_for_legacy (value (item counter)) map_id)
      ≡ value (item counter)
unfolding legacy_item_guid_from_modern value
legacy_item-modern_guid counter map_id h =
    rw
      (modern-item (0x4000 * 2 ^ 48 + counter) counter map_id (ground arith) (omega arith)
        (omega arith))
      (ground (arith, bit_or-below 48 0x4000 (counter % 2 ^ 32) (omega arith)))
