-- ===== src/LootRoll/State.antt =====
-- `lootRollIdentity`, `lootRollReference` and the operations on them. The map is an association list
-- whose keys differ, in any order: `resolveLootRollLocked` may find at most one entry.
use redscarf_proxy.Prelude.{
  ℕ, leb, ◌==◌, ◌&&◌, if◌then◌else◌, Bool, true, false, List, [], ◌∷◌, ◌++◌, Option, none, some,
  length, drop,
}
use redscarf_proxy.Guid.{Guid128, guid_eq}

pub record LootRollIdentity : Type 0 where
  pub object : Guid128
  pub slot : ℕ

pub record LootRollKey : Type 0 where
  pub slot : ℕ
  pub item_id : ℕ
  pub suffix : ℕ
  pub property : ℕ

pub record LootRollReference : Type 0 where
  pub legacy_guid : ℕ
  pub modern_guid : Guid128
  pub item_key : LootRollKey

pub record LootRolls : Type 0 where
  pub open_rolls : List (LootRollIdentity × LootRollReference)
  pub completed : List LootRollIdentity

unfoldable pub identity_eq : LootRollIdentity → LootRollIdentity → Bool
identity_eq a b = guid_eq a.object b.object && a.slot == b.slot

unfoldable pub key_eq : LootRollKey → LootRollKey → Bool
key_eq a b =
    a.slot == b.slot && a.item_id == b.item_id && a.suffix == b.suffix && a.property == b.property

abbrev pub identity_of : LootRollReference → LootRollIdentity
identity_of r = record { object = r.modern_guid; slot = r.item_key.slot }

unfoldable pub look_up :
    LootRollIdentity → List (LootRollIdentity × LootRollReference) → Option LootRollReference
look_up id [] = none
look_up id ((k, r) ∷ rolls) = if identity_eq k id then some r else look_up id rolls

-- `delete(session.lootRolls, id)`
unfoldable pub delete_roll :
    LootRollIdentity
    → List (LootRollIdentity × LootRollReference)
    → List (LootRollIdentity × LootRollReference)
delete_roll id [] = []
delete_roll id ((k, r) ∷ rolls) =
    let rest = delete_roll id rolls in if identity_eq k id then rest else (k, r) ∷ rest

-- `session.lootRolls[id] = reference`
unfoldable pub put_roll :
    LootRollIdentity
    → LootRollReference
    → List (LootRollIdentity × LootRollReference)
    → List (LootRollIdentity × LootRollReference)
put_roll id r rolls = (id, r) ∷ delete_roll id rolls

unfoldable pub is_completed : LootRollIdentity → List LootRollIdentity → Bool
is_completed id [] = false
is_completed id (c ∷ cs) = if identity_eq c id then true else is_completed id cs

-- The 3.3.5 identity to forward to, or 0, and whether the roll is completed already.
abbrev pub request_answer : Option LootRollReference → LootRollIdentity → LootRolls → ℕ × Bool
request_answer (some r) id s = (r.legacy_guid, false)
request_answer none id s = (0, is_completed id s.completed)

unfoldable pub legacy_loot_roll_request : LootRollIdentity → LootRolls → ℕ × Bool
legacy_loot_roll_request id s = request_answer (look_up id s.open_rolls) id s

-- `ModernLootGUID` on the current map is the argument `modern_guid`.
unfoldable pub remember_loot_roll :
    (ℕ → Guid128) → LootRollKey → ℕ → LootRolls → LootRolls × LootRollReference
remember_loot_roll modern_guid key legacy_guid s =
    let r : LootRollReference = record {
      legacy_guid = legacy_guid;
      modern_guid = modern_guid legacy_guid;
      item_key = key;
    } in
    (record s { open_rolls = put_roll (identity_of r) r s.open_rolls }, r)

-- The loop of `resolveLootRollLocked`: `result` is what it has found.
unfoldable pub only_match :
    LootRollKey
    → List (LootRollIdentity × LootRollReference)
    → Option LootRollReference
    → Option LootRollReference
only_match key [] result = result
only_match key ((k, r) ∷ rolls) none =
    only_match key rolls (if key_eq r.item_key key then some r else none)
only_match key ((k, r) ∷ rolls) (some found) =
    let rest = only_match key rolls (some found) in if key_eq r.item_key key then none else rest

unfoldable pub resolve_loot_roll :
    (ℕ → Guid128) → LootRollKey → ℕ → LootRolls → LootRolls × Option LootRollReference
resolve_loot_roll modern_guid key legacy_guid s =
    if legacy_guid == 0
    then (s, only_match key s.open_rolls none)
    else (let (t, r) = remember_loot_roll modern_guid key legacy_guid s in (t, some r))

abbrev pub max_completed : ℕ
max_completed = 256

-- At the limit the program moves the entries from the second on to the front and keeps 255 of them.
-- The list never grows beyond the limit.
unfoldable pub push_completed : LootRollIdentity → List LootRollIdentity → List LootRollIdentity
push_completed id cs = (if leb max_completed (length cs) then drop 1 cs else cs) ++ (id ∷ [])

unfoldable pub complete_loot_roll : LootRollReference → LootRolls → LootRolls
complete_loot_roll r s = record {
  open_rolls = delete_roll (identity_of r) s.open_rolls;
  completed = push_completed (identity_of r) s.completed;
}

-- The open rolls of an item, and the one element of a list that has one.
unfoldable pub rolls_of :
    LootRollKey → List (LootRollIdentity × LootRollReference) → List LootRollReference
rolls_of key [] = []
rolls_of key ((k, r) ∷ rolls) =
    let rest = rolls_of key rolls in if key_eq r.item_key key then r ∷ rest else rest

abbrev pub sole {ℓ} : {A : Type ℓ} → List A → Option A
sole [] = none
sole (x ∷ []) = some x
sole (x ∷ y ∷ ys) = none
