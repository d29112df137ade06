-- ===== src/Spell/Failure.antt =====
-- internal/proxy/spell_queue.go: what a CAST_FAILED of the 3.3.5 server does, and the retries.
use redscarf_proxy.Prelude.{
  ℕ, ◌+◌, ◌==◌, ltb, leb, if◌then◌else◌, Bool, true, false, not, ◌&&◌, ◌||◌, List, Option, none,
  some,
}
use redscarf_proxy.Guid.{zero_guid, guid_eq}
use redscarf_proxy.Spell.State.{
  PendingCast, Attempt, SpellQueue, Session, retry_fuse, next_u32, spell_failed_not_ready,
}
use redscarf_proxy.Spell.Pending.{pending_unstarted, pending_unstarted_spell}
use redscarf_proxy.Spell.Matching.{SpellRanks}
use redscarf_proxy.Spell.Consume.{match_player_cast_failure}
use redscarf_proxy.Spell.Queue.{with_queue}

unfoldable pub retryable_cast_failure : ℕ → Bool
retryable_cast_failure reason = reason == spell_failed_not_ready

-- The tests of `dropRetiredFailureLocked` from `active := ...` on.
unfoldable pub retired_answer : Option Attempt → ℕ → ℕ → SpellQueue → Bool
retired_answer none spell now q = true
retired_answer (some a) spell now q =
    if guid_eq a.client_cast_id zero_guid
    then true
    else (if a.spell_id == spell
        then a.retry_seq == 1
          && a.retry_in_flight
          && ltb now q.stale_until
          && q.stale_spell_id == spell
        else true)

unfoldable pub drop_retired_failure : ℕ → ℕ → ℕ → Session → Bool
drop_retired_failure spell reason now s =
    reason == spell_failed_not_ready
    && s.spell_queue.retired_spell_id == spell
    && not (pending_unstarted_spell spell s)
    && retired_answer s.spell_queue.active spell now s.spell_queue

-- `attemptMatchesFailureLocked`: the active attempt, if it is the one that failed, with the pending
-- cast, if one was found.
unfoldable pub attempt_matches :
    Option Attempt → ℕ → Option PendingCast → Option (Attempt × Option PendingCast)
attempt_matches none spell found = none
attempt_matches (some a) spell (some p) =
    if guid_eq a.client_cast_id p.client_cast_id then some (a, some p) else none
attempt_matches (some a) spell none = if a.spell_id == spell then some (a, none) else none

-- `pending.ClientCastID != GUID128{} && pending.Started`
abbrev pub started_pending : Option PendingCast → Bool
started_pending none = false
started_pending (some p) = not (guid_eq p.client_cast_id zero_guid) && p.started

-- The rest of `swallowCastFailedLocked` on the attempt. `now.Sub(last) < fuse` is written as a
-- sum, since `-` stops at 0.
unfoldable pub settle_failure : ℕ → ℕ → Attempt → Attempt × Bool
settle_failure reason now a =
    if retryable_cast_failure reason
    then (if a.started
        then (record a { need_retry = false }, true)
        else (if leb a.retry_seq a.settled_seq
            then (a, true)
            else (let answered =
                  a.retry_in_flight
                  && ltb 1 a.retry_seq
                  && ltb now (a.last_retry_at + retry_fuse) in
                let settled = record a { settled_seq = a.retry_seq; retry_in_flight = false } in
                if answered || leb a.retry_deadline now
                then (record settled { need_retry = false }, false)
                else (record settled { need_retry = true }, true))))
    else (a, false)

unfoldable pub note_started : Option PendingCast → Attempt → Attempt
note_started found a = if started_pending found then (record a { started = true }) else a

-- Write `active` back: the program changes it through its pointer.
abbrev pub store_attempt : Session → Attempt × Bool → Session × Bool
store_attempt s (a, swallowed) =
    (with_queue (record s.spell_queue { active = some a }) s, swallowed)

abbrev pub swallow_matched :
    Option (Attempt × Option PendingCast) → ℕ → ℕ → ℕ → Session → Session × Bool
swallow_matched none spell reason now s = (s, drop_retired_failure spell reason now s)
swallow_matched (some (a, found)) spell reason now s =
    store_attempt s (settle_failure reason now (note_started found a))

-- The clock is read by the first `dropRetiredFailureLocked`, and again by the rest: `first` and `now`.
unfoldable pub swallow_cast_failed : SpellRanks → ℕ → ℕ → ℕ → ℕ → Session → Session × Bool
swallow_cast_failed ranks spell reason first now s =
    if drop_retired_failure spell reason first s
    then (s, true)
    else swallow_matched
        (attempt_matches s.spell_queue.active spell
          (match_player_cast_failure ranks spell false s).1)
        spell reason now s

-- The tests of `spellQueueRetryBodyForceLocked` that need `active`.
unfoldable pub may_retry : Bool → Attempt → ℕ → Session → Bool
may_retry force a now s =
    not a.started
    && not a.retry_in_flight
    && (force || not s.spell_queue.manual_retry)
    && a.need_retry
    && ltb now a.retry_deadline
    && pending_unstarted a.client_cast_id s

unfoldable pub resend : ℕ → Attempt → Attempt
resend now a = record a {
  need_retry = false;
  retry_in_flight = true;
  last_retry_at = now;
  retry_seq = next_u32 a.retry_seq;
}

unfoldable pub retry_against : Option Attempt → Bool → ℕ → Session → Session × Option (List ℕ)
retry_against none force now s = (s, none)
retry_against (some a) force now s =
    if may_retry force a now s
    then (with_queue (record s.spell_queue { active = some (resend now a) }) s, some a.cast_body)
    else (s, none)

unfoldable pub retry_body_force : Bool → ℕ → Session → Session × Option (List ℕ)
retry_body_force force now s = retry_against s.spell_queue.active force now s

unfoldable pub retry_body : ℕ → Session → Session × Option (List ℕ)
retry_body now s = retry_body_force false now s

-- `retrySpellQueue`: the body that is written to the 3.3.5 server, if any. A missing or broken
-- connection only loses the write.
unfoldable pub retry_spell_queue : ℕ → ℕ → Session → Session × Option (List ℕ)
retry_spell_queue generation now s =
    if s.spell_queue.generation == generation then retry_body_force true now s else (s, none)
