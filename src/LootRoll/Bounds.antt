-- ===== src/LootRoll/Bounds.antt =====
-- internal/proxy/loot_roll.go and server.go: how rolls are looked up, opened and resolved.
use redscarf_proxy.Prelude.{ℕ, ◌≡◌, refl, arith, ◌==◌, true, false, List, [], ◌∷◌, none, some}
use redscarf_proxy.Guid.{Guid128, guid_eq_refl}
use redscarf_proxy.LootRoll.State.{
  LootRollIdentity, LootRollReference, LootRolls, LootRollKey, identity_eq, look_up, delete_roll,
  put_roll, legacy_loot_roll_request, remember_loot_roll, only_match, resolve_loot_roll, rolls_of,
  sole,
}

pub identity_eq_refl : (id : LootRollIdentity) → identity_eq id id ≡ true
unfolding identity_eq
identity_eq_refl id = ground (arith, guid_eq_refl id.object)

pub look_up-delete_roll :
    (id : LootRollIdentity) (rolls : List (LootRollIdentity × LootRollReference))
    → look_up id (delete_roll id rolls) ≡ none
unfolding look_up delete_roll
look_up-delete_roll id [] = refl
look_up-delete_roll id ((k, r) ∷ rolls) = ground (arith, look_up-delete_roll id rolls)

-- A roll that is announced with its identity is open: a response to it is forwarded to that
-- identity, also if the same roll was completed before.
resolve_loot_roll_opens :
    (modern_guid : ℕ → Guid128) (key : LootRollKey) (legacy_guid : ℕ) (s : LootRolls)
    → (legacy_guid == 0) ≡ false
    → legacy_loot_roll_request
        (record { object = modern_guid legacy_guid; slot = key.slot })
        (resolve_loot_roll modern_guid key legacy_guid s).0
      ≡ (legacy_guid, false)
unfolding legacy_loot_roll_request resolve_loot_roll remember_loot_roll put_roll look_up
resolve_loot_roll_opens modern_guid key legacy_guid s h =
    rw (h, identity_eq_refl (record { object = modern_guid legacy_guid; slot = key.slot }))

only_match-some :
    (key : LootRollKey) (rolls : List (LootRollIdentity × LootRollReference))
    (r : LootRollReference)
    → only_match key rolls (some r) ≡ sole (r ∷ rolls_of key rolls)
unfolding only_match rolls_of
only_match-some key [] r = refl
only_match-some key ((k, q) ∷ rolls) r = ground (arith, only_match-some key rolls r)

only_match-none :
    (key : LootRollKey) (rolls : List (LootRollIdentity × LootRollReference))
    → only_match key rolls none ≡ sole (rolls_of key rolls)
unfolding only_match rolls_of
only_match-none key [] = refl
only_match-none key ((k, q) ∷ rolls) =
    ground (arith, only_match-some key rolls q, only_match-none key rolls)

-- A notification without an identity is resolved to the open roll of its item if there is exactly
-- one, and to none otherwise; it changes nothing.
pub resolve_loot_roll_unambiguous :
    (modern_guid : ℕ → Guid128) (key : LootRollKey) (s : LootRolls)
    → resolve_loot_roll modern_guid key 0 s ≡ (s, sole (rolls_of key s.open_rolls))
unfolding resolve_loot_roll
resolve_loot_roll_unambiguous modern_guid key s = rw (only_match-none key s.open_rolls)
