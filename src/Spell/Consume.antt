-- ===== src/Spell/Consume.antt =====
-- internal/proxy/spell_cast_matching.go and server.go: a matched pending cast is marked or consumed.
use redscarf_proxy.Prelude.{
  ℕ, zero, suc, ◌==◌, if◌then◌else◌, Bool, true, false, not, ◌&&◌, ◌||◌, List, [], ◌∷◌, Option,
  none, some, get_elem?,
}
use redscarf_proxy.Guid.{Guid128}
use redscarf_proxy.Spell.State.{PendingCast, Session}
use redscarf_proxy.Spell.Matching.{
  SpellRanks, or_else, player_pending, find_pending_cast_for, find_downrank_cast,
}

-- `append(list[:index], list[index+1:]...)`
abbrev pub remove_at : ℕ → List PendingCast → List PendingCast
remove_at index [] = []
remove_at zero (p ∷ ps) = ps
remove_at (suc index) (p ∷ ps) = p ∷ remove_at index ps

abbrev pub mark_at : ℕ → ℕ → List PendingCast → List PendingCast
mark_at index spell [] = []
mark_at zero spell (p ∷ ps) = record p { started = true; server_spell_id = spell } ∷ ps
mark_at (suc index) spell (p ∷ ps) = p ∷ mark_at index spell ps

unfoldable pub remember_completed_cast : ℕ → Guid128 → Session → Session
remember_completed_cast spell id s =
    if spell == 0 || (id.low == 0 && id.high == 0) then s else (record s {
      completed_cast_ids = λ k. if k == spell then some id else s.completed_cast_ids k;
    })

unfoldable pub remember_consumed : ℕ → PendingCast → Session → Session
remember_consumed spell p s =
    if p.pet_guid == 0
    then (let t = remember_completed_cast p.spell_id p.server_cast_id s in
        if spell == p.spell_id then t else remember_completed_cast spell p.server_cast_id t)
    else s

-- `usePendingCastLocked`. Its callers pass an index that a search has found; outside the list Go
-- panics, which is `none` here.
unfoldable pub use_pending_cast : ℕ → ℕ → Bool → Bool → Session → Session × Option PendingCast
use_pending_cast index spell start consume s =
    if start
    then (let marked = mark_at index spell s.pending_casts in
        (record s { pending_casts = marked }, get_elem? marked index))
    else (elim (get_elem? s.pending_casts index) [
      | none ↦ (s, none)
      | some p ↦ (
        if consume
            then remember_consumed spell p
                (record s { pending_casts = remove_at index s.pending_casts })
            else s,
        some p,
      )
    ])

abbrev pub use_found : Option ℕ → ℕ → Bool → Bool → Session → Session × Option PendingCast
use_found none spell start consume s = (s, none)
use_found (some index) spell start consume s = use_pending_cast index spell start consume s

unfoldable pub find_pending_cast : ℕ → Bool → Session → Option ℕ
find_pending_cast spell start s = find_pending_cast_for spell start player_pending s

unfoldable pub match_pending_cast : ℕ → Bool → Bool → Session → Session × Option PendingCast
match_pending_cast spell start consume s =
    use_found (find_pending_cast spell start s) spell start consume s

unfoldable pub failure_index : SpellRanks → ℕ → Session → Option ℕ
failure_index ranks spell s =
    or_else (find_pending_cast spell false s) (find_downrank_cast ranks spell none s)

unfoldable pub match_player_cast_failure :
    SpellRanks → ℕ → Bool → Session → Session × Option PendingCast
match_player_cast_failure ranks spell consume s =
    use_found (failure_index ranks spell s) spell false consume s

unfoldable pub match_pet_cast_failure : ℕ → Session → Session × Option PendingCast
match_pet_cast_failure spell s =
    use_found (find_pending_cast_for spell false (λ p. not (p.pet_guid == 0)) s) spell false true s
