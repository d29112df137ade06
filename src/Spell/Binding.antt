-- ===== src/Spell/Binding.antt =====
-- internal/proxy/server.go and spell_cast_matching.go: the pending cast that a SPELL_START or SPELL_GO is
-- bound to.
use redscarf_proxy.Prelude.{
  ℕ, ◌≡◌, ◌≢◌, Bool, true, false, not, ◌&&◌, ◌==◌, bit_and, none, some, ◌⊎◌, get_elem?,
}
use redscarf_proxy.Spell.State.{PendingCast, Session}
use redscarf_proxy.Spell.Matching.{
  SpellRanks, pending_spell_id, is_lower_spell_rank, find_pending_cast_for,
}
use redscarf_proxy.Spell.Handlers.{SpellCast, is_player_cast, accepts_cast}

-- The cast is one of the packet's caster: of the player, or of the pet that casts.
pub data IsOfCaster (cast : SpellCast) (s : Session) (p : PendingCast) : Type 0 where
  of_player : is_player_cast cast s ≡ true → p.pet_guid ≡ 0 → IsOfCaster cast s p
  of_pet :
      is_player_cast cast s ≡ false
      → p.pet_guid ≢ 0
      → p.pet_guid ≡ cast.caster_unit
      → IsOfCaster cast s p

-- A request of the player for a higher rank of the packet's spell, that nothing has answered yet.
pub record IsDownranked (ranks : SpellRanks) (cast : SpellCast) (p : PendingCast) : Type 0 where
  pub without_item : p.cast_item_guid ≡ 0
  pub unanswered : p.server_spell_id ≡ 0
  pub lower : is_lower_spell_rank ranks p.spell_id cast.spell_id ≡ true
  pub has_target : p.target_guid ≢ 0
  pub aimed : p.target_guid ≡ cast.target

-- The pending cast at the index is one that the packet may answer.
abbrev pub BindsTo : SpellRanks → SpellCast → Bool → Session → ℕ → Type 0
BindsTo ranks cast start s i =
    (p : PendingCast) × (get_elem? s.pending_casts i ≡ some p)
    × IsOfCaster cast s p
    × ((start ≡ false) ⊎ (p.started ≡ false))
    × ((pending_spell_id p ≡ cast.spell_id) ⊎ ((start ≡ true) × IsDownranked ranks cast p))

module _ (ranks : SpellRanks) (cast : SpellCast) (start : Bool) (s : Session) (i : ℕ) where
  abbrev MissedExactly : Type 0
  MissedExactly =
      find_pending_cast_for cast.spell_id start (accepts_cast (is_player_cast cast s) cast start) s
      ≡ none

  abbrev tries_downrank : Bool
  tries_downrank =
      start && is_player_cast cast s && not cast.item_caster && bit_and cast.cast_flags 1 == 0
