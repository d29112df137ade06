-- ===== src/TransportSync.antt =====
-- internal/modernworld/transport_sync.go: the replay of the path timer of moving transports. The map of
-- hulls is a list of entries, each under its own identity; times are nanoseconds. What the package
-- variable holds, and how it is read from the environment, is the argument `interval`.
pub mod Spaced
use redscarf_proxy.Prelude.{
  ℕ, ◌+◌, ◌-◌, ◌*◌, ◌/◌, ◌%◌, ◌^◌, ◌==◌, ltb, leb, ◌||◌, not, bit_or, if◌then◌else◌, Bool, true,
  false, List, [], ◌∷◌, Option, none, some,
}

pub record TransportPathState : Type 0 where
  pub dynamic : ℕ
  pub bytes1 : ℕ
  pub period : ℕ
  pub observed : ℕ
  pub resent : ℕ

abbrev pub Hulls : Type 0
Hulls = List (ℕ × TransportPathState)

-- `Fields` holds the dynamic word and the first bytes of the GameObject.
pub record TransportResync : Type 0 where
  pub guid : ℕ
  pub dynamic : ℕ
  pub bytes1 : ℕ

abbrev legacy_game_object_dynamic : ℕ
legacy_game_object_dynamic = 14

abbrev legacy_game_object_level : ℕ
legacy_game_object_level = 16

abbrev legacy_game_object_bytes1 : ℕ
legacy_game_object_bytes1 = 17

unfoldable pub put_hull : ℕ → TransportPathState → Hulls → Hulls
put_hull guid hull [] = (guid, hull) ∷ []
put_hull guid hull ((key, old) ∷ hulls) =
    let rest = put_hull guid hull hulls in
    if key == guid then (guid, hull) ∷ hulls else (key, old) ∷ rest

abbrev value_or_zero : Option ℕ → ℕ
value_or_zero none = 0
value_or_zero (some v) = v

unfoldable pub observe : ℕ → (ℕ → Option ℕ) → ℕ → Hulls → Hulls
observe guid fields now hulls =
    if not (guid / 2 ^ 48 % 2 ^ 16 == 0x1fc0)
    then hulls
    else elim (fields legacy_game_object_dynamic) [
      | none ↦ hulls
      | some dynamic ↦ elim (fields legacy_game_object_bytes1) [
        | none ↦ hulls
        | some bytes1 ↦
            let period = value_or_zero (fields legacy_game_object_level) in
            if period == 0
            then hulls
            else put_hull guid
                (record {
                  dynamic = dynamic;
                  bytes1 = bytes1;
                  period = period;
                  observed = now;
                  resent = 0;
                })
                hulls
      ]
    ]

unfoldable pub reset_hulls : Hulls → Hulls
reset_hulls hulls = []

-- A clock behind the observation counts as no time, which is where `-` stops.
unfoldable pub progress_at : TransportPathState → ℕ → ℕ
progress_at hull now =
    let elapsed = (now - hull.observed) / 1000000 in
    let advance = elapsed * 65535 % 2 ^ 64 / hull.period in
    let progress = (hull.dynamic / 2 ^ 16 + advance) % 2 ^ 64 % 65535 in
    bit_or (hull.dynamic % 2 ^ 16) (progress * 2 ^ 16)

unfoldable pub last_sent : TransportPathState → ℕ
last_sent hull = if ltb hull.resent hull.observed then hull.observed else hull.resent

-- One round of the loop of `due`. `now.Sub(last) < interval` is written as a sum.
unfoldable pub replay : ℕ → ℕ → ℕ → TransportPathState → Option TransportResync × TransportPathState
replay now interval guid hull =
    if not (hull.bytes1 % 2 ^ 8 == 0) || ltb now (last_sent hull + interval)
    then (none, hull)
    else (
      some (record { guid = guid; dynamic = progress_at hull now; bytes1 = hull.bytes1 }),
      record hull { resent = now },
    )

unfoldable pub insert_resync : TransportResync → List TransportResync → List TransportResync
insert_resync r [] = r ∷ []
insert_resync r (x ∷ xs) =
    let rest = insert_resync r xs in if leb r.guid x.guid then r ∷ (x ∷ xs) else x ∷ rest

-- The rounds of the loop, with the replays in the order of their identities.
unfoldable pub due_loop : ℕ → ℕ → Hulls → List TransportResync × Hulls
due_loop now interval [] = ([], [])
due_loop now interval ((guid, hull) ∷ hulls) =
    let (resyncs, rest) = due_loop now interval hulls in
    let (resync, next) = replay now interval guid hull in
    (elim resync [ none ↦ resyncs | some r ↦ insert_resync r resyncs ], (guid, next) ∷ rest)

unfoldable pub due : ℕ → ℕ → Hulls → List TransportResync × Hulls
due now interval hulls =
    let replayed = due_loop now interval hulls in if interval == 0 then ([], hulls) else replayed
