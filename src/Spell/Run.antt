-- ===== src/Spell/Run.antt =====
-- internal/proxy/spell_queue.go and server.go: histories of the spell queue, event after event.
use redscarf_proxy.Prelude.{
  ℕ, ◌+◌, ◌≤◌, ◌≡◌, refl, arith, Bool, true, false, List, [], ◌∷◌, none, some,
}
use redscarf_proxy.Spell.State.{Attempt, Session}
use redscarf_proxy.Spell.Matching.{SpellRanks}
use redscarf_proxy.Spell.Handlers.{Event, step, run, ends, InTurn}
use redscarf_proxy.Spell.Sound.{
  IsSound, ActiveIsSound, sends-le, later-IsSound, retry_against-active,
}
use redscarf_proxy.Spell.Failure.{retry_body_force, resend}
use redscarf_proxy.Spell.Retry.{retry_body_force-some}
use redscarf_proxy.Spell.History.{step-active}
use redscarf_proxy.Spell.Held.{HeldFits}
use redscarf_proxy.Spell.Release.{step-HeldFits}

-- The times of a history do not go back behind `clock`, nor those that one handler reads.
abbrev pub IsOrdered : ℕ → List (ℕ × Event) → Type 0
IsOrdered clock [] = Unit {0}
IsOrdered clock ((now, e) ∷ es) = (clock ≤ now) × InTurn now e × IsOrdered (ends now e) es

-- The time of the last event.
abbrev pub end_time : ℕ → List (ℕ × Event) → ℕ
end_time clock [] = clock
end_time clock ((now, e) ∷ es) = end_time (ends now e) es

run-active :
    (ranks : SpellRanks) (es : List (ℕ × Event)) (clock : ℕ) (s : Session)
    → IsOrdered clock es
    → ActiveIsSound clock s.spell_queue.active
    → ActiveIsSound (end_time clock es) (run ranks es s).spell_queue.active
unfolding run
run-active ranks [] clock s h v = v
run-active ranks ((now, e) ∷ es) clock s h v =
    run-active ranks es (ends now e) (step ranks now e s) h.2
      (step-active ranks clock now e s h.0 h.1 v)

-- After any history with times in order, of a session that began with no active attempt, the
-- active attempt is sound at the time of the last event.
pub run-IsSound :
    (ranks : SpellRanks) (es : List (ℕ × Event)) (s : Session) (a : Attempt)
    → IsOrdered 0 es
    → s.spell_queue.active ≡ none
    → (run ranks es s).spell_queue.active ≡ some a
    → IsSound (end_time 0 es) a
run-IsSound ranks es s a h fresh e =
    let start : ActiveIsSound 0 s.spell_queue.active = rw fresh tt in
    rw e at (run-active ranks es 0 s h start)

retry_body_force-active :
    (now : ℕ) (force : Bool) (s : Session)
    → ActiveIsSound now s.spell_queue.active
    → ActiveIsSound now (retry_body_force force now s).0.spell_queue.active
unfolding retry_body_force
retry_body_force-active now force s v = retry_against-active now s.spell_queue.active force s v v

resend-retry_seq :
    (now : ℕ) (a : Attempt) → IsSound now a → (resend now a).retry_seq ≡ a.retry_seq + 1
unfolding resend
resend-retry_seq now a sound = ground (arith, sends-le now a sound)

-- After any history with times in order, of a session that began with no active attempt: whenever the
-- queue, forced or not, gives out a body to be sent again, it is the body of the active attempt, the
-- attempt has been sent from 1 to 30 times by its count, it has no send in flight that waits for an
-- answer, and afterwards it counts this send and has it in flight.
pub run-retry_counted :
    (ranks : SpellRanks) (es : List (ℕ × Event)) (s : Session) (force : Bool) (now : ℕ)
    (body : List ℕ)
    → IsOrdered 0 es
    → s.spell_queue.active ≡ none
    → end_time 0 es ≤ now
    → (retry_body_force force now (run ranks es s)).1 ≡ some body
    → (a : Attempt) × (b : Attempt) × ((run ranks es s).spell_queue.active ≡ some a)
      × ((retry_body_force force now (run ranks es s)).0.spell_queue.active ≡ some b)
      × (body ≡ a.cast_body)
      × (1 ≤ a.retry_seq)
      × (b.retry_seq ≡ a.retry_seq + 1)
      × (b.retry_seq ≤ 31)
      × (a.retry_in_flight ≡ false)
      × (b.retry_in_flight ≡ true)
run-retry_counted ranks es s force now body h fresh later sent =
    let t = run ranks es s in
    let (a, r) = retry_body_force-some force now t body sent in
    let sound : IsSound now a =
      later-IsSound (end_time 0 es) now a later (run-IsSound ranks es s a h fresh r.0) in
    let after : (retry_body_force force now t).0.spell_queue.active ≡ some (resend now a) =
      rw r.6 refl in
    let resent : IsSound now (resend now a) =
      rw after at (retry_body_force-active now force t (rw r.0 sound)) in
    (
      a,
      resend now a,
      r.0,
      after,
      r.5,
      sound.sent,
      resend-retry_seq now a sound,
      sends-le now (resend now a) resent,
      r.2,
      unfold resend in refl,
    )

-- After any history: if there is both a held cast and an active attempt, they are two casts of one
-- spell, provided that this was so at its beginning.
pub run-HeldFits :
    (ranks : SpellRanks) (es : List (ℕ × Event)) (s : Session)
    → HeldFits s.spell_queue
    → HeldFits (run ranks es s).spell_queue
unfolding run
run-HeldFits ranks [] s v = v
run-HeldFits ranks ((now, e) ∷ es) s v =
    run-HeldFits ranks es (step ranks now e s) (step-HeldFits ranks now e s v)
