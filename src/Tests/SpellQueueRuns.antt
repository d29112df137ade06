-- ===== src/Tests/SpellQueueRuns.antt =====
-- The spell queue of internal/proxy on concrete histories.
use redscarf_proxy.Prelude.{ℕ, List, ◌+◌, ◌*◌, ◌≤◌, ◌≡◌, refl, arith, true, false, [], ◌∷◌, some}
use redscarf_proxy.Guid.{guid_eq}
use redscarf_proxy.Spell.State.{Attempt, Session, millisecond}
use redscarf_proxy.Spell.Pending.{unstarted_in, pending_unstarted}
use redscarf_proxy.Spell.Matching.{
  pending_spell_id, player_pending, answers, index_of_attempt, any_started, settle_attempt,
  find_active_attempt_in, find_active_attempt, find_pending_cast_for,
}
use redscarf_proxy.Spell.Consume.{
  remember_completed_cast, remember_consumed, use_pending_cast, find_pending_cast, failure_index,
  match_player_cast_failure,
}
use redscarf_proxy.Spell.Queue.{
  complete_spell_queue_cast, end_active, promote_against, promote_held, held_has, discard_held,
  new_attempt, activate, replace_held, send_now, enqueue_against, enqueue_player_cast, trim_loop,
  trim_pending_casts, queue_cast_matches, cancel_spell_queue,
}
use redscarf_proxy.Spell.Failure.{
  retryable_cast_failure, drop_retired_failure, settle_failure, attempt_matches, note_started,
  swallow_cast_failed, may_retry, resend, retry_against, retry_body_force, retry_body,
}
use redscarf_proxy.Spell.Packets.{take_abandoned_cast_packets, modern_cast_guid}
use redscarf_proxy.Spell.Requests.{
  pending_of, note_request, remember_spell_visual, handle_cast_spell, handle_cancel_cast,
}
use redscarf_proxy.Spell.Handlers.{
  SpellCast, Event, match_spell_packet, matching_index, accepts_cast, is_player_cast,
  handle_spell_packet, handle_cast_failed, cast_spell, step, run,
}
use redscarf_proxy.Spell.Promote.{Releases, run-Releases}
use redscarf_proxy.Spell.Sound.{IsSound}
use redscarf_proxy.Spell.Run.{end_time, run-IsSound, run-retry_counted, run-HeldFits}
use redscarf_proxy.Spell.Held.{HeldFits}
use redscarf_proxy.Tests.Casting.{
  no_ranks, client_id, request, quiet, fresh, refused_once, sent_twice, casting, holding,
}

refused_once_runs : (run no_ranks refused_once fresh).spell_queue.active ≡ some sent_twice
unfolding run step handle_cast_spell note_request remember_spell_visual pending_of
    trim_pending_casts trim_loop enqueue_player_cast enqueue_against send_now discard_held activate
    new_attempt take_abandoned_cast_packets handle_cast_failed swallow_cast_failed
    drop_retired_failure match_player_cast_failure failure_index find_pending_cast
    find_pending_cast_for find_active_attempt find_active_attempt_in settle_attempt index_of_attempt
    any_started answers player_pending pending_spell_id use_pending_cast attempt_matches
    note_started settle_failure retryable_cast_failure guid_eq retry_body retry_body_force
    retry_against may_retry pending_unstarted unstarted_in resend
refused_once_runs = refl

run-IsSound_example : IsSound (end_time 0 refused_once) sent_twice
run-IsSound_example =
    run-IsSound no_ranks refused_once fresh sent_twice
      (omega arith, tt, (omega arith, (omega arith, omega arith), tt)) refl refused_once_runs

-- With retries held back, the NOT_READY is swallowed and nothing is sent again before the timer.
abbrev by_hand : Session
by_hand = record fresh { spell_queue = record quiet { manual_retry = true } }

timer_resends :
    (retry_body_force true (1200 * millisecond) (run no_ranks refused_once by_hand)).1
    ≡ some (116 ∷ [])
unfolding run step handle_cast_spell note_request remember_spell_visual pending_of
    trim_pending_casts trim_loop enqueue_player_cast enqueue_against send_now discard_held activate
    new_attempt take_abandoned_cast_packets handle_cast_failed swallow_cast_failed
    drop_retired_failure match_player_cast_failure failure_index find_pending_cast
    find_pending_cast_for find_active_attempt find_active_attempt_in settle_attempt index_of_attempt
    any_started answers player_pending pending_spell_id use_pending_cast attempt_matches
    note_started settle_failure retryable_cast_failure guid_eq retry_body retry_body_force
    retry_against may_retry pending_unstarted unstarted_in resend
timer_resends = refl

run-retry_counted_example :
    let s = run no_ranks refused_once by_hand in
    (a : Attempt) × (b : Attempt) × (s.spell_queue.active ≡ some a)
    × ((retry_body_force true (1200 * millisecond) s).0.spell_queue.active ≡ some b)
    × (116 ∷ [] ≡ a.cast_body)
    × (1 ≤ a.retry_seq)
    × (b.retry_seq ≡ a.retry_seq + 1)
    × (b.retry_seq ≤ 31)
    × (a.retry_in_flight ≡ false)
    × (b.retry_in_flight ≡ true)
run-retry_counted_example =
    run-retry_counted no_ranks refused_once by_hand true (1200 * millisecond) (116 ∷ [])
      (omega arith, tt, (omega arith, (omega arith, omega arith), tt)) refl (omega arith)
      timer_resends

second_is_held :
    step no_ranks (1100 * millisecond) (cast_spell (request 2) (117 ∷ [])) casting ≡ holding
unfolding step handle_cast_spell note_request remember_spell_visual pending_of trim_pending_casts
    trim_loop enqueue_player_cast enqueue_against replace_held guid_eq take_abandoned_cast_packets
    new_attempt
second_is_held = refl

-- A held cast that is cancelled leaves the active attempt alone, and the cancel is not forwarded.
cancelled_held : (handle_cancel_cast (client_id 2) 116 holding).1 ≡ false
unfolding pending_of handle_cancel_cast cancel_spell_queue held_has queue_cast_matches guid_eq
    new_attempt
cancelled_held = refl

run-HeldFits_example : HeldFits (run no_ranks refused_once holding).spell_queue
unfolding pending_of guid_eq new_attempt
run-HeldFits_example = run-HeldFits no_ranks refused_once holding refl

-- The GO of the active cast, by the player.
abbrev go : SpellCast
go = record {
  pet_load_cooldown = false;
  caster_guid = 4;
  caster_unit = 4;
  spell_id = 116;
  cast_flags = 0;
  target = 0;
  item_caster = false;
}

abbrev second_request : List (ℕ × Event)
second_request = (1100 * millisecond, cast_spell (request 2) (117 ∷ [])) ∷ []

holding_sends :
    (handle_spell_packet no_ranks go false (1500 * millisecond) holding).1 ≡ some (117 ∷ [])
unfolding handle_spell_packet match_spell_packet matching_index find_pending_cast_for
    find_active_attempt find_active_attempt_in new_attempt settle_attempt index_of_attempt guid_eq
    pending_of answers accepts_cast is_player_cast pending_spell_id any_started use_pending_cast
    complete_spell_queue_cast remember_completed_cast remember_consumed pending_unstarted
    unstarted_in activate end_active promote_against promote_held modern_cast_guid
holding_sends = refl

go_sends :
    (handle_spell_packet no_ranks go false
      (1500 * millisecond)
      (run no_ranks second_request casting)).1
    ≡ some (117 ∷ [])
unfolding run
go_sends = rw second_is_held holding_sends

run-Releases_example :
    let s = run no_ranks second_request casting in
    Releases no_ranks go false s
      (handle_spell_packet no_ranks go false (1500 * millisecond) s).0
      (117 ∷ [])
run-Releases_example =
    run-Releases no_ranks second_request casting go false (1500 * millisecond) (117 ∷ []) refl
      go_sends
