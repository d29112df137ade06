-- ===== src/Spell/Release.antt =====
-- internal/proxy/spell_queue.go and server.go: the held cast through the handlers.
use redscarf_proxy.Prelude.{
  ℕ, ◌≡◌, refl, arith, Bool, true, false, not, Option, none, some, inl, inr, Bool-cases, ◌==◌,
}
use redscarf_proxy.Guid.{Guid128}
use redscarf_proxy.Spell.State.{PendingCast, Attempt, Session}
use redscarf_proxy.Spell.Pending.{remove_pending_cast, drop_pending_cast}
use redscarf_proxy.Spell.Matching.{SpellRanks, find_pending_cast_for}
use redscarf_proxy.Spell.Consume.{match_pet_cast_failure, match_player_cast_failure, failure_index}
use redscarf_proxy.Spell.Queue.{
  end_active, discard_held, enqueue_player_cast, trim_pending_casts, complete_spell_queue_cast,
  fail_spell_queue, mark_started, mark_spell_queue_started, reset_spell_queue, cancelled,
  cancel_spell_queue,
}
use redscarf_proxy.Spell.Failure.{
  settle_failure, note_started, attempt_matches, swallow_matched, swallow_cast_failed,
  retry_body_force, retry_body, retry_spell_queue,
}
use redscarf_proxy.Spell.Packets.{SpellFailureInfo, take_abandoned_cast_packets}
use redscarf_proxy.Spell.Requests.{
  handle_cast_spell, handle_use_item, handle_pet_cast, handle_cancel_cast, note_request, pending_of,
  remember_spell_visual,
}
use redscarf_proxy.Spell.Handlers.{
  reset_character_session, handle_cast_failed, handle_pet_cast_failed, use_item, pet_cast,
  pet_cast_failed, matching_index, match_spell_packet, handle_spell_packet, handle_retry_timer,
  advance_queue, failure_answer, Event, cast_spell, cancel_cast, cast_failed, spell_packet,
  retry_timer, reset, step,
}
use redscarf_proxy.Spell.History.{use_found-queue}
use redscarf_proxy.Spell.Held.{
  HeldFits, none-HeldFits, discard_held-held, trim_loop-HeldFits, enqueue_against-HeldFits,
  promote_held-HeldFits, retry_against-HeldFits,
}

mark_started-HeldFits :
    (p : PendingCast) (s : Session)
    → HeldFits s.spell_queue
    → HeldFits (mark_spell_queue_started p s).spell_queue
unfolding mark_spell_queue_started mark_started
mark_started-HeldFits p s v = ground arith

complete-HeldFits :
    (p : PendingCast) (now : ℕ) (s : Session)
    → HeldFits s.spell_queue
    → HeldFits (complete_spell_queue_cast p now s).0.spell_queue
unfolding complete_spell_queue_cast
complete-HeldFits p now s v = ground (arith, promote_held-HeldFits now (end_active s))

fail-HeldFits :
    (p : PendingCast) (now : ℕ) (s : Session)
    → HeldFits s.spell_queue
    → HeldFits (fail_spell_queue p now s).0.spell_queue
unfolding fail_spell_queue
fail-HeldFits p now s v = ground (arith, promote_held-HeldFits now (end_active s))

-- The attempt that a failure is matched with is the active one, up to its bookkeeping.
abbrev SameCast : Option Attempt → Option (Attempt × Option PendingCast) → Type 0
SameCast o none = Unit {0}
SameCast o (some (a, found)) = o ≡ some a

attempt_matches-SameCast :
    (o : Option Attempt) (spell : ℕ) (found : Option PendingCast)
    → SameCast o (attempt_matches o spell found)
unfolding attempt_matches
attempt_matches-SameCast none spell found = tt
attempt_matches-SameCast (some a) spell none = ground arith
attempt_matches-SameCast (some a) spell (some p) = ground arith

settle_failure-ids :
    (reason now : ℕ) (found : Option PendingCast) (a : Attempt)
    → let b = (settle_failure reason now (note_started found a)).0 in
      (b.client_cast_id ≡ a.client_cast_id) × (b.spell_id ≡ a.spell_id)
unfolding settle_failure note_started
settle_failure-ids reason now found a = ground arith

swallow_matched-HeldFits :
    (m : Option (Attempt × Option PendingCast)) (spell reason now : ℕ) (s : Session)
    → SameCast s.spell_queue.active m
    → HeldFits s.spell_queue
    → HeldFits (swallow_matched m spell reason now s).0.spell_queue
swallow_matched-HeldFits none spell reason now s e v = v
swallow_matched-HeldFits (some (a, found)) spell reason now s e v =
    ground (arith, settle_failure-ids reason now found a)

swallow-HeldFits :
    (ranks : SpellRanks) (spell reason first now : ℕ) (s : Session)
    → HeldFits s.spell_queue
    → HeldFits (swallow_cast_failed ranks spell reason first now s).0.spell_queue
unfolding swallow_cast_failed
swallow-HeldFits ranks spell reason first now s v =
    let found = (match_player_cast_failure ranks spell false s).1 in
    let m = attempt_matches s.spell_queue.active spell found in
    ground (
      arith,
      swallow_matched-HeldFits m spell reason now s
          (attempt_matches-SameCast s.spell_queue.active spell found) v,
    )

cancelled-HeldFits :
    (o : Option Attempt) (s : Session)
    → HeldFits s.spell_queue
    → HeldFits (cancelled o s).spell_queue
cancelled-HeldFits none s v = v
cancelled-HeldFits (some a) s v =
    none-HeldFits (cancelled (some a) s).spell_queue (inl (discard_held-held true _))

drop-queue : (id : Guid128) (s : Session) → (drop_pending_cast id s).spell_queue ≡ s.spell_queue
unfolding drop_pending_cast remove_pending_cast
drop-queue id s = refl

cancel-HeldFits :
    (id : Guid128) (spell : ℕ) (s : Session)
    → HeldFits s.spell_queue
    → HeldFits (cancel_spell_queue id spell s).0.spell_queue
unfolding cancel_spell_queue
cancel-HeldFits id spell s v = ground (
  arith,
  none-HeldFits (discard_held false s).spell_queue (inl (discard_held-held false s)),
  cancelled-HeldFits s.spell_queue.active s v,
  drop-queue id (discard_held false s),
  drop-queue id (cancelled s.spell_queue.active s),
  drop-queue id s,
)

advance_queue-HeldFits :
    (start : Bool) (now : ℕ) (r : Session × Option PendingCast)
    → HeldFits r.0.spell_queue
    → HeldFits (advance_queue start now r).0.spell_queue
advance_queue-HeldFits start now (s, none) v = v
advance_queue-HeldFits true now (s, some p) v = mark_started-HeldFits p s v
advance_queue-HeldFits false now (s, some p) v = complete-HeldFits p now s v

failure_answer-HeldFits :
    (found : Option PendingCast) (info : SpellFailureInfo) (now : ℕ) (s : Session)
    → HeldFits s.spell_queue
    → HeldFits (failure_answer found info now s).session.spell_queue
failure_answer-HeldFits none info now s v = v
failure_answer-HeldFits (some p) info now s v = fail-HeldFits p now s v

cast_failed-HeldFits :
    (ranks : SpellRanks) (info : SpellFailureInfo) (first settled now : ℕ) (s : Session)
    → HeldFits s.spell_queue
    → HeldFits (handle_cast_failed ranks info first settled now s).session.spell_queue
unfolding handle_cast_failed retry_body retry_body_force match_player_cast_failure
cast_failed-HeldFits ranks info first settled now s v =
    let t = swallow_cast_failed ranks info.spell_id info.reason first settled s in
    let w = swallow-HeldFits ranks info.spell_id info.reason first settled s v in
    let r = match_player_cast_failure ranks info.spell_id true t.0 in
    elim (Bool-cases t.1) [
      | inl e ↦ rw e (retry_against-HeldFits t.0.spell_queue.active false now t.0 refl w)
      | inr e ↦ rw e (
          failure_answer-HeldFits r.1 info now r.0 (
            rw
              (use_found-queue (failure_index ranks info.spell_id t.0) info.spell_id false true t.0)
              w))
    ]

-- Every event keeps the held cast and the active attempt two casts of one spell.
pub step-HeldFits :
    (ranks : SpellRanks) (now : ℕ) (e : Event) (s : Session)
    → HeldFits s.spell_queue
    → HeldFits (step ranks now e s).spell_queue
unfolding step handle_cast_spell handle_cancel_cast handle_spell_packet handle_retry_timer
    match_spell_packet take_abandoned_cast_packets enqueue_player_cast trim_pending_casts
    retry_spell_queue retry_body_force reset_spell_queue reset_character_session handle_use_item
    handle_pet_cast handle_pet_cast_failed note_request remember_spell_visual match_pet_cast_failure
step-HeldFits ranks now (cast_spell request body) s v =
    enqueue_against-HeldFits _ (pending_of request 0 0 s.current_map_id) body now _ refl
step-HeldFits ranks now (use_item request item) s v = trim_loop-HeldFits 8 s.pending_casts s v
step-HeldFits ranks now (pet_cast request pet) s v = trim_loop-HeldFits 8 s.pending_casts s v
step-HeldFits ranks now (pet_cast_failed spell) s v =
    let pets = λ (q : PendingCast). not (q.pet_guid == 0) in
    rw (use_found-queue (find_pending_cast_for spell false pets s) spell false true s) v
step-HeldFits ranks now (cancel_cast id spell) s v = cancel-HeldFits id spell s v
step-HeldFits ranks now (cast_failed info settled ended) s v =
    cast_failed-HeldFits ranks info now settled ended s v
step-HeldFits ranks now (spell_packet cast start) s v =
    advance_queue-HeldFits start now (match_spell_packet ranks cast start s)
      (rw (use_found-queue (matching_index ranks cast start s) cast.spell_id start (not start) s) v)
step-HeldFits ranks now (retry_timer generation) s v =
    ground (arith, retry_against-HeldFits s.spell_queue.active true now s refl v)
step-HeldFits ranks now reset s v = refl
