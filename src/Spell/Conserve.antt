-- ===== src/Spell/Conserve.antt =====
-- internal/proxy/server.go, CMSG_CAST_SPELL: what becomes of the requests.
use redscarf_proxy.Prelude.{ℕ, ◌+◌, ◌≡◌, Bool, List, [], ◌∷◌, ◌==◌, ◌&&◌, if◌then◌else◌}
use redscarf_proxy.Spell.State.{PendingCast, Session}

-- How many of the player's casts in a list pass a test. A pet's casts are not counted: the queue
-- drops them without a word.
unfoldable pub tally : (PendingCast → Bool) → List PendingCast → ℕ
tally f [] = 0
tally f (p ∷ ps) = (if p.pet_guid == 0 && f p then 1 else 0) + tally f ps

-- The requests that the session still answers for.
abbrev pub requests : (PendingCast → Bool) → Session → ℕ
requests f s = tally f s.pending_casts + tally f s.spell_queue.abandoned

-- The player's casts of one list are those of the other, each as often.
abbrev pub AsOften : List PendingCast → List PendingCast → Type 0
AsOften xs ys = (f : PendingCast → Bool) → tally f xs ≡ tally f ys
