-- ===== src/Spell/History.antt =====
-- internal/proxy/spell_queue.go and server.go: the active attempt through the handlers.
use redscarf_proxy.Prelude.{
  ℕ, ◌≤◌, ◌≡◌, refl, arith, Bool, true, false, not, Option, none, some, get_elem?, inl, inr,
  Bool-cases, Option-cases, ◌==◌,
}
use redscarf_proxy.Guid.{Guid128}
use redscarf_proxy.Spell.State.{PendingCast, Attempt, Session}
use redscarf_proxy.Spell.Pending.{remove_pending_cast, drop_pending_cast}
use redscarf_proxy.Spell.Matching.{SpellRanks, find_pending_cast_for}
use redscarf_proxy.Spell.Consume.{
  remember_completed_cast, remember_consumed, use_pending_cast, use_found,
  match_player_cast_failure, match_pet_cast_failure, remove_at, failure_index,
}
use redscarf_proxy.Spell.Queue.{
  with_queue, end_active, discard_held, enqueue_player_cast, promote_held, trim_loop,
  trim_pending_casts, complete_spell_queue_cast, fail_spell_queue, mark_spell_queue_started,
  reset_spell_queue, cancel_spell_queue, marked, cancelled,
}
use redscarf_proxy.Spell.Failure.{
  attempt_matches, swallow_cast_failed, swallow_matched, retry_body, retry_body_force,
  retry_spell_queue,
}
use redscarf_proxy.Spell.Packets.{SpellFailureInfo, take_abandoned_cast_packets}
use redscarf_proxy.Spell.Requests.{
  handle_cast_spell, handle_use_item, handle_pet_cast, handle_cancel_cast, note_request, pending_of,
  remember_spell_visual,
}
use redscarf_proxy.Spell.Handlers.{
  reset_character_session, handle_cast_failed, handle_pet_cast_failed, use_item, pet_cast,
  pet_cast_failed, match_spell_packet, handle_spell_packet, handle_retry_timer, matching_index,
  advance_queue, failure_answer, Event, cast_spell, cancel_cast, cast_failed, spell_packet,
  retry_timer, reset, step, ends, InTurn,
}
use redscarf_proxy.Spell.Sound.{
  IsSound, ActiveIsSound, KeptOrEnded, kept_or_ended, later-IsSound, settle_failure-IsSound,
  note_started-IsSound, mark_started-IsSound, discard_held-kept, trim_loop-kept,
  enqueue_against-active, promote_against-active, retry_against-active,
}

-- A matched cast changes the list of pending casts, not the queue.
remember_consumed-queue :
    (spell : ℕ) (p : PendingCast) (s : Session)
    → (remember_consumed spell p s).spell_queue ≡ s.spell_queue
unfolding remember_consumed remember_completed_cast
remember_consumed-queue spell p s = ground arith

pub use_found-queue :
    (found : Option ℕ) (spell : ℕ) (start consume : Bool) (s : Session)
    → (use_found found spell start consume s).0.spell_queue ≡ s.spell_queue
unfolding use_pending_cast
use_found-queue none spell start consume s = refl
use_found-queue (some index) spell true consume s = refl
use_found-queue (some index) spell false consume s =
    elim (Option-cases (get_elem? s.pending_casts index)) [
      | inl e ↦ rw (e, use_pending_cast)
      | inr (p, e) ↦
          rw (e, use_pending_cast)
            (ground (
              arith,
              remember_consumed-queue spell p
                  (record s { pending_casts = remove_at index s.pending_casts }),
            ))
    ]

abbrev MatchIsSound : ℕ → Option (Attempt × Option PendingCast) → Type 0
MatchIsSound now none = Unit {0}
MatchIsSound now (some (a, found)) = IsSound now a

module _ (now : ℕ) where
  marked-active : (o : Option Attempt) → ActiveIsSound now o → ActiveIsSound now (marked o)
  marked-active none v = v
  marked-active (some a) v = mark_started-IsSound now a v

  mark_started-active :
      (p : PendingCast) (s : Session)
      → ActiveIsSound now s.spell_queue.active
      → ActiveIsSound now (mark_spell_queue_started p s).spell_queue.active
  unfolding mark_spell_queue_started
  mark_started-active p s v = ground (arith, marked-active s.spell_queue.active v)

  promote_held-active :
      (s : Session)
      → ActiveIsSound now s.spell_queue.active
      → ActiveIsSound now (promote_held now s).0.spell_queue.active
  unfolding promote_held
  promote_held-active s v = promote_against-active now s.spell_queue.held _ v

  complete-active :
      (p : PendingCast) (s : Session)
      → ActiveIsSound now s.spell_queue.active
      → ActiveIsSound now (complete_spell_queue_cast p now s).0.spell_queue.active
  unfolding complete_spell_queue_cast end_active
  complete-active p s v = ground (arith, promote_held-active (end_active s))

  fail-active :
      (p : PendingCast) (s : Session)
      → ActiveIsSound now s.spell_queue.active
      → ActiveIsSound now (fail_spell_queue p now s).0.spell_queue.active
  unfolding fail_spell_queue end_active
  fail-active p s v = ground (arith, promote_held-active (end_active s))

  attempt_matches-IsSound :
      (o : Option Attempt) (spell : ℕ) (found : Option PendingCast)
      → ActiveIsSound now o
      → MatchIsSound now (attempt_matches o spell found)
  unfolding attempt_matches
  attempt_matches-IsSound none spell found v = tt
  attempt_matches-IsSound (some a) spell none v = ground arith
  attempt_matches-IsSound (some a) spell (some p) v = ground arith

  swallow_matched-active :
      (m : Option (Attempt × Option PendingCast)) (spell reason : ℕ) (s : Session)
      → ActiveIsSound now s.spell_queue.active
      → MatchIsSound now m
      → ActiveIsSound now (swallow_matched m spell reason now s).0.spell_queue.active
  swallow_matched-active none spell reason s v w = v
  swallow_matched-active (some (a, found)) spell reason s v w =
      settle_failure-IsSound reason now _ (note_started-IsSound found now a w)

  swallow-active :
      (ranks : SpellRanks) (spell reason first : ℕ) (s : Session)
      → ActiveIsSound now s.spell_queue.active
      → ActiveIsSound now (swallow_cast_failed ranks spell reason first now s).0.spell_queue.active
  unfolding swallow_cast_failed
  swallow-active ranks spell reason first s v =
      let found = (match_player_cast_failure ranks spell false s).1 in
      let m = attempt_matches s.spell_queue.active spell found in
      ground (
        arith,
        swallow_matched-active m spell reason s v
            (attempt_matches-IsSound s.spell_queue.active spell found v),
      )

  retry-active :
      (force : Bool) (s : Session)
      → ActiveIsSound now s.spell_queue.active
      → ActiveIsSound now (retry_body_force force now s).0.spell_queue.active
  unfolding retry_body_force
  retry-active force s v = retry_against-active now s.spell_queue.active force s v v

cancelled-kept : (o : Option Attempt) (s : Session) → KeptOrEnded s (cancelled o s)
unfolding end_active
cancelled-kept none s = inl refl
cancelled-kept (some a) s = ground (
  arith,
  discard_held-kept true (
      end_active (
        drop_pending_cast a.client_cast_id (
          with_queue
            (record s.spell_queue {
              retired_spell_id = a.spell_id;
              retired_generation = a.generation;
            })
            s))),
)

drop-kept : (id : Guid128) (s : Session) → (drop_pending_cast id s).spell_queue ≡ s.spell_queue
unfolding drop_pending_cast remove_pending_cast
drop-kept id s = refl

cancel-kept :
    (id : Guid128) (spell : ℕ) (s : Session) → KeptOrEnded s (cancel_spell_queue id spell s).0
unfolding cancel_spell_queue
cancel-kept id spell s = ground (
  arith,
  discard_held-kept false s,
  drop-kept id (discard_held false s),
  cancelled-kept s.spell_queue.active s,
  drop-kept id (cancelled s.spell_queue.active s),
  drop-kept id s,
)

advance_queue-active :
    (start : Bool) (now : ℕ) (r : Session × Option PendingCast)
    → ActiveIsSound now r.0.spell_queue.active
    → ActiveIsSound now (advance_queue start now r).0.spell_queue.active
advance_queue-active start now (s, none) v = v
advance_queue-active true now (s, some p) v = mark_started-active now p s v
advance_queue-active false now (s, some p) v = complete-active now p s v

failure_answer-active :
    (found : Option PendingCast) (info : SpellFailureInfo) (now : ℕ) (s : Session)
    → ActiveIsSound now s.spell_queue.active
    → ActiveIsSound now (failure_answer found info now s).session.spell_queue.active
failure_answer-active none info now s v = v
failure_answer-active (some p) info now s v = fail-active now p s v

match_player-active :
    (ranks : SpellRanks) (spell : ℕ) (consume : Bool) (now : ℕ) (s : Session)
    → ActiveIsSound now s.spell_queue.active
    → ActiveIsSound now (match_player_cast_failure ranks spell consume s).0.spell_queue.active
unfolding match_player_cast_failure
match_player-active ranks spell consume now s v =
    rw (use_found-queue (failure_index ranks spell s) spell false consume s) v

later-active :
    (clock now : ℕ) (o : Option Attempt) → clock ≤ now → ActiveIsSound clock o → ActiveIsSound now o
later-active clock now none h v = v
later-active clock now (some a) h v = later-IsSound clock now a h v

cast_failed-active :
    (ranks : SpellRanks) (info : SpellFailureInfo) (first settled now : ℕ) (s : Session)
    → settled ≤ now
    → ActiveIsSound settled s.spell_queue.active
    → ActiveIsSound now
        (handle_cast_failed ranks info first settled now s).session.spell_queue.active
unfolding handle_cast_failed retry_body
cast_failed-active ranks info first settled now s h v =
    let t = swallow_cast_failed ranks info.spell_id info.reason first settled s in
    let w =
      later-active settled now t.0.spell_queue.active h
        (swallow-active settled ranks info.spell_id info.reason first s v) in
    elim (Bool-cases t.1) [
      | inl e ↦ rw e (retry-active now false t.0 w)
      | inr e ↦ rw e (
          failure_answer-active _ info now _
            (match_player-active ranks info.spell_id true now t.0 w))
    ]

trimmed-active :
    (now : ℕ) (s : Session)
    → ActiveIsSound now s.spell_queue.active
    → ActiveIsSound now (trim_loop 8 s.pending_casts s).spell_queue.active
trimmed-active now s v =
    kept_or_ended now s (trim_loop 8 s.pending_casts s) (trim_loop-kept 8 s.pending_casts s) v

-- Every event that comes no earlier than the last one, and reads the clock in order, keeps the attempt sound.
pub step-active :
    (ranks : SpellRanks) (clock now : ℕ) (e : Event) (s : Session)
    → clock ≤ now
    → InTurn now e
    → ActiveIsSound clock s.spell_queue.active
    → ActiveIsSound (ends now e) (step ranks now e s).spell_queue.active
unfolding step handle_cast_spell handle_cancel_cast handle_spell_packet handle_retry_timer
    match_spell_packet take_abandoned_cast_packets enqueue_player_cast trim_pending_casts
    retry_spell_queue reset_spell_queue reset_character_session handle_use_item handle_pet_cast
    handle_pet_cast_failed note_request remember_spell_visual match_pet_cast_failure
step-active ranks clock now (cast_spell request body) s h turn v =
    enqueue_against-active now _ (pending_of request 0 0 s.current_map_id) body _
      (trimmed-active now s (later-active clock now _ h v))
step-active ranks clock now (use_item request item) s h turn v =
    trimmed-active now s (later-active clock now _ h v)
step-active ranks clock now (pet_cast request pet) s h turn v =
    trimmed-active now s (later-active clock now _ h v)
step-active ranks clock now (pet_cast_failed spell) s h turn v =
    let pets = λ (q : PendingCast). not (q.pet_guid == 0) in
    rw (use_found-queue (find_pending_cast_for spell false pets s) spell false true s)
      (later-active clock now _ h v)
step-active ranks clock now (cancel_cast id spell) s h turn v =
    kept_or_ended now s (cancel_spell_queue id spell s).0 (cancel-kept id spell s)
      (later-active clock now _ h v)
step-active ranks clock now (cast_failed info settled ended) s h turn v =
    cast_failed-active ranks info now settled ended s turn.1
      (later-active clock settled _ (omega (arith, h, turn.0)) v)
step-active ranks clock now (spell_packet cast start) s h turn v =
    advance_queue-active start now (match_spell_packet ranks cast start s) (
      rw (use_found-queue (matching_index ranks cast start s) cast.spell_id start (not start) s)
        (later-active clock now _ h v))
step-active ranks clock now (retry_timer generation) s h turn v =
    ground
      (arith, later-active clock now _ h v, retry-active now true s (later-active clock now _ h v))
step-active ranks clock now reset s h turn v = tt
