-- ===== src/Spell/Pending.antt =====
-- The list `pendingCasts` of internal/proxy/spell_queue.go: look-ups and removal by cast identity.
use redscarf_proxy.Prelude.{
  ℕ, ◌==◌, if◌then◌else◌, Bool, true, false, not, ◌&&◌, List, [], ◌∷◌, Option, none, some,
}
use redscarf_proxy.Guid.{Guid128, guid_eq}
use redscarf_proxy.Spell.State.{PendingCast, Session}

-- The loop of `removePendingCastLocked`: the first entry with the identity, and the list without it.
unfoldable pub find_pending : Guid128 → List PendingCast → Option PendingCast
find_pending id [] = none
find_pending id (p ∷ ps) = if guid_eq p.client_cast_id id then some p else find_pending id ps

unfoldable pub erase_pending : Guid128 → List PendingCast → List PendingCast
erase_pending id [] = []
erase_pending id (p ∷ ps) = if guid_eq p.client_cast_id id then ps else p ∷ erase_pending id ps

unfoldable pub remove_pending_cast : Guid128 → Session → Session × Option PendingCast
remove_pending_cast id s =
    (record s { pending_casts = erase_pending id s.pending_casts }, find_pending id s.pending_casts)

unfoldable pub drop_pending_cast : Guid128 → Session → Session
drop_pending_cast id s = (remove_pending_cast id s).0

unfoldable pub unstarted_in : Guid128 → List PendingCast → Bool
unstarted_in id [] = false
unstarted_in id (p ∷ ps) = if guid_eq p.client_cast_id id then not p.started else unstarted_in id ps

unfoldable pub pending_unstarted : Guid128 → Session → Bool
pending_unstarted id s = unstarted_in id s.pending_casts

unfoldable pub unstarted_spell_in : ℕ → List PendingCast → Bool
unstarted_spell_in spell [] = false
unstarted_spell_in spell (p ∷ ps) =
    if p.pet_guid == 0 && p.spell_id == spell && not p.started
    then true
    else unstarted_spell_in spell ps

unfoldable pub pending_unstarted_spell : ℕ → Session → Bool
pending_unstarted_spell spell s = unstarted_spell_in spell s.pending_casts
