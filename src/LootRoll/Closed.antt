-- ===== src/LootRoll/Closed.antt =====
-- internal/proxy/loot_roll.go: a completed roll stays completed while other rolls come and go.
use redscarf_proxy.Prelude.{
  ℕ, ◌+◌, ◌≤◌, ◌<◌, ◌≡◌, refl, arith, leb, ◌==◌, true, false, Bool, List, [], ◌∷◌, ◌++◌, none, some,
  length, length-append, append_assoc, Bool-cases, inl, inr,
}
use redscarf_proxy.Guid.{Guid128}
use redscarf_proxy.LootRoll.State.{
  LootRollIdentity, LootRollReference, LootRolls, LootRollKey, identity_eq, identity_of, look_up,
  delete_roll, put_roll, is_completed, legacy_loot_roll_request, remember_loot_roll,
  resolve_loot_roll, max_completed, push_completed, complete_loot_roll,
}
use redscarf_proxy.LootRoll.Response.{LootRollRequest, parse_loot_roll, handle_loot_roll, ignored}
use redscarf_proxy.LootRoll.Bounds.{identity_eq_refl, look_up-delete_roll}

-- What the 3.3.5 server announces: a roll on an item, with the roll's identity or with 0, and the end of
-- a roll.
pub data RollEvent : Type 0 where
  announced : LootRollKey → ℕ → RollEvent
  completes : LootRollReference → RollEvent

module _ (modern_guid : ℕ → Guid128) where
  unfoldable pub roll_step : RollEvent → LootRolls → LootRolls
  roll_step (announced key guid) s = (resolve_loot_roll modern_guid key guid s).0
  roll_step (completes r) s = complete_loot_roll r s

  unfoldable pub roll_run : List RollEvent → LootRolls → LootRolls
  roll_run [] s = s
  roll_run (event ∷ events) s = roll_run events (roll_step event s)

  -- No roll is announced under this identity.
  abbrev pub NotAgain : LootRollIdentity → List RollEvent → Type 0
  NotAgain id [] = Unit {0}
  NotAgain id (announced key guid ∷ events) =
      (identity_eq (record { object = modern_guid guid; slot = key.slot }) id ≡ false)
      × NotAgain id events
  NotAgain id (completes r ∷ events) = NotAgain id events

-- How many rolls are completed.
unfoldable pub completions : List RollEvent → ℕ
completions [] = 0
completions (announced key guid ∷ events) = completions events
completions (completes r ∷ events) = completions events + 1

look_up-delete_other :
    (id other : LootRollIdentity) (rolls : List (LootRollIdentity × LootRollReference))
    → look_up id rolls ≡ none
    → look_up id (delete_roll other rolls) ≡ none
unfolding look_up delete_roll
look_up-delete_other id other [] h = refl
look_up-delete_other id other ((k, r) ∷ rolls) h =
    ground (arith, look_up-delete_other id other rolls)

is_completed-among :
    (id : LootRollIdentity) (before after : List LootRollIdentity)
    → is_completed id (before ++ (id ∷ after)) ≡ true
unfolding is_completed
is_completed-among id [] after = ground (arith, identity_eq_refl id)
is_completed-among id (c ∷ cs) after = ground (arith, is_completed-among id cs after)

-- The roll is not open, and is among the completed rolls with at most `n` behind it.
abbrev Stays : ℕ → LootRollIdentity → LootRolls → Type 0
Stays n id s =
    (look_up id s.open_rolls ≡ none)
    × ((before after : List LootRollIdentity) × (s.completed ≡ before ++ (id ∷ after))
        × (length after ≤ n))

push_completed-among :
    (n : ℕ) (id other : LootRollIdentity) (before after : List LootRollIdentity)
    → n + 1 < max_completed
    → length after ≤ n
    → (kept next : List LootRollIdentity) × (push_completed other (before ++ (id ∷ after))
        ≡ kept ++ (id ∷ next))
      × (length next ≤ n + 1)
unfolding push_completed
push_completed-among n id other [] after room few =
    ([], after ++ (other ∷ []), ground arith, omega (arith, length-append after (other ∷ [])))
push_completed-among n id other (b ∷ bs) after room few =
    let short : length (after ++ (other ∷ [])) ≤ n + 1 =
      omega (arith, length-append after (other ∷ [])) in
    elim (Bool-cases (leb max_completed (length (b ∷ (bs ++ (id ∷ after)))))) [
      | inl full ↦
          (bs, after ++ (other ∷ []), rw full (append_assoc bs (id ∷ after) (other ∷ [])), short)
      | inr space ↦ (
        b ∷ bs,
        after ++ (other ∷ []),
        rw space (append_assoc (b ∷ bs) (id ∷ after) (other ∷ [])),
        short,
      )
    ]

complete_loot_roll-Stays :
    (n : ℕ) (id : LootRollIdentity) (r : LootRollReference) (s : LootRolls)
    → n + 1 < max_completed
    → Stays n id s
    → Stays (n + 1) id (complete_loot_roll r s)
unfolding complete_loot_roll
complete_loot_roll-Stays n id r s room (gone, (before, after, cut, few)) =
    let (kept, next, pushed, short) =
      push_completed-among n id (identity_of r) before after room few in
    (look_up-delete_other id (identity_of r) s.open_rolls gone, (kept, next, rw cut pushed, short))

module _ (modern_guid : ℕ → Guid128) where
  announced-Stays :
      (n : ℕ) (id : LootRollIdentity) (key : LootRollKey) (guid : ℕ) (s : LootRolls)
      → identity_eq (record { object = modern_guid guid; slot = key.slot }) id ≡ false
      → Stays n id s
      → Stays n id (resolve_loot_roll modern_guid key guid s).0
  unfolding resolve_loot_roll remember_loot_roll put_roll look_up
  announced-Stays n id key guid s other (gone, rest) = elim (Bool-cases (guid == 0)) [
    | inl hidden ↦ rw hidden (gone, rest)
    | inr named ↦ rw (named, other) (look_up-delete_other id _ s.open_rolls gone, rest)
  ]

  roll_run-Stays :
      (n : ℕ) (id : LootRollIdentity) (events : List RollEvent) (s : LootRolls)
      → n + completions events < max_completed
      → NotAgain modern_guid id events
      → Stays n id s
      → Stays (n + completions events) id (roll_run modern_guid events s)
  unfolding roll_run roll_step completions
  roll_run-Stays n id [] s room fresh v = rw (stays n) v
    where
      stays : (m : ℕ) → m + completions [] ≡ m
      stays m = omega arith
  roll_run-Stays n id (announced key guid ∷ events) s room fresh v =
      roll_run-Stays n id events _ room fresh.1 (announced-Stays n id key guid s fresh.0 v)
  roll_run-Stays n id (completes r ∷ events) s room fresh v =
      let next : Stays (n + 1) id (complete_loot_roll r s) =
        complete_loot_roll-Stays n id r s (omega arith) v in
      rw (shift n events) at
        (roll_run-Stays (n + 1) id events (complete_loot_roll r s) (omega arith) fresh next)
    where
      shift : (m : ℕ) (es : List RollEvent) → m + 1 + completions es ≡ m + (completions es + 1)
      shift m es = omega arith

  -- After a roll is completed, an answer of the player to it is ignored: it is neither forwarded to the
  -- 3.3.5 server nor an error, whatever rolls are announced and completed since, as long as fewer than
  -- 256 have been completed since and none was announced under the same identity.
  pub complete_loot_roll_closes :
      (r : LootRollReference) (events : List RollEvent) (body : List ℕ) (connected : Bool)
      (request : LootRollRequest) (s : LootRolls)
      → completions events < 256
      → NotAgain modern_guid (identity_of r) events
      → parse_loot_roll body ≡ some request
      → request.loot_obj ≡ r.modern_guid
      → request.slot ≡ r.item_key.slot
      → handle_loot_roll body connected (roll_run modern_guid events (complete_loot_roll r s))
        ≡ ignored
  unfolding handle_loot_roll legacy_loot_roll_request
  complete_loot_roll_closes r events body connected request s few fresh parsed object slot =
      let v : Stays 0 (identity_of r) (complete_loot_roll r s) =
        unfold complete_loot_roll push_completed in
        (look_up-delete_roll (identity_of r) s.open_rolls, (_, [], refl, omega arith)) in
      let (gone, (before, after, cut, short)) =
        roll_run-Stays 0 (identity_of r) events (complete_loot_roll r s) (omega arith) fresh v in
      rw
        (
          handle_loot_roll,
          parsed,
          legacy_loot_roll_request,
          object,
          slot,
          gone,
          cut,
          is_completed-among (identity_of r) before after,
        )
        refl
