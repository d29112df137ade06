-- ===== src/Spell/Told.antt =====
-- internal/proxy/spell_queue.go and server.go: a cast that the 3.3.5 server keeps refusing is refused to
-- the client in the end.
use redscarf_proxy.Prelude.{ℕ, ◌≤◌, ◌≡◌, ◌≢◌, true, false, List, [], ◌∷◌, Option, none, some}
use redscarf_proxy.Guid.{guid_eq}
use redscarf_proxy.Wire.Packet.{Packet}
use redscarf_proxy.Spell.State.{PendingCast, Attempt, Session}
use redscarf_proxy.Spell.Pending.{pending_unstarted, pending_unstarted_spell}
use redscarf_proxy.Spell.Matching.{SpellRanks}
use redscarf_proxy.Spell.Consume.{match_player_cast_failure}
use redscarf_proxy.Spell.Failure.{resend}
use redscarf_proxy.Spell.Packets.{
  SpellFailureInfo, smsg_cast_failed, encode_cast_failed, prepare_packet,
}
use redscarf_proxy.Spell.Handlers.{handle_cast_failed}

-- What follows a handler that tells the client nothing: nothing, unless it has written to the server.
abbrev pub when_sent : Option (List ℕ) → List Packet → List Packet
when_sent none rest = []
when_sent (some body) rest = rest

-- The server answers each send, and only a send, with a CAST_FAILED, at these times: the packets of the
-- first answer that the client is told of. The reads of the clock in one handler agree here.
unfoldable pub told : SpellRanks → SpellFailureInfo → List ℕ → Session → List Packet
told ranks info [] s = []
told ranks info (now ∷ times) s =
    let out = handle_cast_failed ranks info now now now s in
    let rest = told ranks info times out.session in
    elim out.to_client [ [] ↦ when_sent out.to_server rest | p ∷ ps ↦ p ∷ ps ]

-- The times do not go back behind `clock`.
abbrev pub TimesOrdered : ℕ → List ℕ → Type 0
TimesOrdered clock [] = Unit {0}
TimesOrdered clock (now ∷ times) = (clock ≤ now) × TimesOrdered now times

-- The session with this active attempt.
abbrev pub with_active : Attempt → Session → Session
with_active a s = record s { spell_queue = record s.spell_queue { active = some a } }

-- The attempt is in flight and not started, and a failure of the spell answers its pending cast.
pub record IsAwaited (ranks : SpellRanks) (spell : ℕ) (s : Session) (a : Attempt) (p : PendingCast)
    : Type 0 where
  pub fresh : a.started ≡ false
  pub in_flight : a.retry_in_flight ≡ true
  pub cast_fresh : p.started ≡ false
  pub own_cast : guid_eq a.client_cast_id p.client_cast_id ≡ true
  pub found : (match_player_cast_failure ranks spell false (with_active a s)).1 ≡ some p
  pub waits : pending_unstarted a.client_cast_id s ≡ true
  pub waits_for_spell : pending_unstarted_spell spell s ≡ true
  pub has_body : a.cast_body ≢ []
  pub automatic : s.spell_queue.manual_retry ≡ false

-- The attempt after its send was settled and sent again.
abbrev again : ℕ → Attempt → Attempt
again now a =
    resend now (record a { settled_seq = a.retry_seq; retry_in_flight = false; need_retry = true })

module _ (ranks : SpellRanks) (spell : ℕ) where
  -- The packets that the client is told of.
  abbrev pub refusal : SpellFailureInfo → PendingCast → List Packet
  refusal info p =
      prepare_packet p
      ∷ record {
        opcode = smsg_cast_failed;
        body = encode_cast_failed p.server_cast_id info p.visual_id;
      }
      ∷ []
