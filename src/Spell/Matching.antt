-- ===== src/Spell/Matching.antt =====
-- internal/proxy/spell_cast_matching.go: which pending cast a server packet answers.
-- An index with its `ok` flag is an `Option`. The table of spell ranks, which the program reads
-- from an embedded file, is the argument `ranks`.
use redscarf_proxy.Prelude.{
  ℕ, ◌+◌, ◌==◌, ltb, if◌then◌else◌, Bool, true, false, not, ◌&&◌, ◌||◌, List, [], ◌∷◌, Option, none,
  some,
}
use redscarf_proxy.Guid.{Guid128, guid_eq}
use redscarf_proxy.Spell.State.{PendingCast, Attempt, Session}

pub record SpellRank : Type 0 where
  pub first : ℕ
  pub rank : ℕ

abbrev pub SpellRanks : Type 0
SpellRanks = ℕ → Option SpellRank

abbrev lower_rank : Option SpellRank → Option SpellRank → Bool
lower_rank (some a) (some b) = a.first == b.first && ltb b.rank a.rank
lower_rank _ _ = false

unfoldable pub is_lower_spell_rank : SpellRanks → ℕ → ℕ → Bool
is_lower_spell_rank ranks requested received = lower_rank (ranks requested) (ranks received)

unfoldable pub pending_spell_id : PendingCast → ℕ
pending_spell_id p = if p.server_spell_id == 0 then p.spell_id else p.server_spell_id

unfoldable pub player_pending : PendingCast → Bool
player_pending p = p.pet_guid == 0

-- The result of the first search, or else of the second.
abbrev pub or_else : Option ℕ → Option ℕ → Option ℕ
or_else (some i) other = some i
or_else none other = other

abbrev pub or_index : Option ℕ → ℕ → Option ℕ
or_index (some i) j = some i
or_index none j = some j

-- `accepts(p) && pendingSpellID(p) == spellID`
unfoldable pub answers : ℕ → (PendingCast → Bool) → PendingCast → Bool
answers spell accepts p = accepts p && pending_spell_id p == spell

module _ (spell : ℕ) (accepts : PendingCast → Bool) where
  -- The first loop of `findActiveAttemptLocked`.
  unfoldable pub index_of_attempt : Guid128 → List PendingCast → ℕ → Option (ℕ × PendingCast)
  index_of_attempt id [] index = none
  index_of_attempt id (p ∷ ps) index =
      if guid_eq p.client_cast_id id && answers spell accepts p
      then some (index, p)
      else index_of_attempt id ps (index + 1)

  -- Its second loop.
  unfoldable pub any_started : List PendingCast → Bool
  any_started [] = false
  any_started (p ∷ ps) = if answers spell accepts p && p.started then true else any_started ps

module _ (spell : ℕ) (start : Bool) (accepts : PendingCast → Bool) where
  -- The loop of `findPendingCastForLocked`.
  unfoldable pub scan_pending : List PendingCast → ℕ → Option ℕ → Option ℕ
  scan_pending [] index unstarted = unstarted
  scan_pending (p ∷ ps) index unstarted =
      let rest = λ (u : Option ℕ). scan_pending ps (index + 1) u in
      if answers spell accepts p
      then (if p.started
          then (if start then rest unstarted else some index)
          else rest (or_index unstarted index))
      else rest unstarted

  unfoldable pub settle_attempt : List PendingCast → Option (ℕ × PendingCast) → Option ℕ
  settle_attempt ps none = none
  settle_attempt ps (some (index, p)) =
      if start
      then (if p.started then none else some index)
      else (if p.started
          then some index
          else (if any_started spell accepts ps then none else some index))

  unfoldable pub find_active_attempt_in : Option Attempt → List PendingCast → Option ℕ
  find_active_attempt_in none ps = none
  find_active_attempt_in (some a) ps =
      if a.spell_id == spell
      then settle_attempt ps (index_of_attempt spell accepts a.client_cast_id ps 0)
      else none

  unfoldable pub find_active_attempt : Session → Option ℕ
  find_active_attempt s = find_active_attempt_in s.spell_queue.active s.pending_casts

  unfoldable pub find_pending_cast_for : Session → Option ℕ
  find_pending_cast_for s = or_else (find_active_attempt s) (scan_pending s.pending_casts 0 none)

abbrev target_agrees : Option ℕ → PendingCast → Bool
target_agrees none p = true
target_agrees (some target) p = not (p.target_guid == 0) && p.target_guid == target

module _ (ranks : SpellRanks) (spell : ℕ) (target : Option ℕ) where
  -- The two `continue` tests of `findDownrankCastLocked`.
  unfoldable pub downrank_candidate : PendingCast → Bool
  downrank_candidate p =
      p.pet_guid == 0
      && p.cast_item_guid == 0
      && not p.started
      && p.server_spell_id == 0
      && is_lower_spell_rank ranks p.spell_id spell
      && target_agrees target p

  -- `found` carries `pendingCasts[found]` with the index.
  unfoldable pub scan_downrank : List PendingCast → ℕ → Option (ℕ × PendingCast) → Option ℕ
  scan_downrank [] index none = none
  scan_downrank [] index (some (i, first)) = some i
  scan_downrank (p ∷ ps) index none =
      scan_downrank ps (index + 1) (if downrank_candidate p then some (index, p) else none)
  scan_downrank (p ∷ ps) index (some (i, first)) =
      let rest = scan_downrank ps (index + 1) (some (i, first)) in
      if downrank_candidate p
      then (if not (first.spell_id == p.spell_id) || not (first.target_guid == p.target_guid)
          then none
          else rest)
      else rest

  unfoldable pub find_downrank_cast : Session → Option ℕ
  find_downrank_cast s = scan_downrank s.pending_casts 0 none
