-- ===== src/Spell/Queue.antt =====
-- internal/proxy/spell_queue.go: the operations on the active and the held cast.
use redscarf_proxy.Prelude.{
  ℕ, ◌+◌, ◌==◌, leb, if◌then◌else◌, Bool, true, false, not, ◌&&◌, ◌||◌, List, [], ◌∷◌, ◌++◌, Option,
  none, some, length,
}
use redscarf_proxy.Guid.{Guid128, zero_guid, guid_eq}
use redscarf_proxy.Spell.State.{
  PendingCast, Attempt, HeldCast, SpellQueue, Session, retry_lifetime, retry_fuse, next_u64,
  queue_normal_spell,
}
use redscarf_proxy.Spell.Pending.{remove_pending_cast, drop_pending_cast, pending_unstarted}

abbrev pub with_queue : SpellQueue → Session → Session
with_queue q s = record s { spell_queue = q }

-- The tests that dereference `active` and `held` after their nil checks.
unfoldable pub active_has : Option Attempt → Guid128 → Bool
active_has none id = false
active_has (some a) id = guid_eq a.client_cast_id id

unfoldable pub held_has : Option HeldCast → Guid128 → Bool
held_has none id = false
held_has (some h) id = guid_eq h.client_cast_id id

-- `queue.generation++; queue.active = nil`
unfoldable pub end_active : Session → Session
end_active s =
    with_queue
      (record s.spell_queue { generation = next_u64 s.spell_queue.generation; active = none }) s

unfoldable pub abandon_cast : PendingCast → Session → Session
abandon_cast p s =
    if p.pet_guid == 0
    then (let t = if active_has s.spell_queue.active p.client_cast_id then end_active s else s in
        with_queue (record t.spell_queue { abandoned = t.spell_queue.abandoned ++ (p ∷ []) }) t)
    else s

unfoldable pub abandon_found : Bool → Session × Option PendingCast → Session
abandon_found fail_client (s, none) = s
abandon_found fail_client (s, some p) = if fail_client then abandon_cast p s else s

unfoldable pub discard_held : Bool → Session → Session
discard_held fail_client s = elim s.spell_queue.held [
  | none ↦ s
  | some h ↦
      abandon_found fail_client
        (remove_pending_cast h.client_cast_id (with_queue (record s.spell_queue { held = none }) s))
]

-- The attempt that `enqueuePlayerCastLocked` and `promoteHeldLocked` make, in flight at once.
unfoldable pub new_attempt : ℕ → ℕ → Guid128 → List ℕ → ℕ → Attempt
new_attempt generation spell id body now = record {
  generation = generation;
  spell_id = spell;
  client_cast_id = id;
  cast_body = body;
  created_at = now;
  retry_deadline = now + retry_lifetime;
  started = false;
  retry_in_flight = true;
  last_retry_at = now;
  retry_seq = 1;
  settled_seq = 0;
  class = queue_normal_spell;
  need_retry = false;
}

unfoldable pub activate : ℕ → Guid128 → List ℕ → ℕ → Session → Session
activate spell id body now s =
    let generation = next_u64 s.spell_queue.generation in
    with_queue
      (record s.spell_queue {
        generation = generation;
        active = some (new_attempt generation spell id body now);
      })
      s

abbrev pub held_differs : Option HeldCast → Guid128 → Bool
held_differs none id = false
held_differs (some h) id = not (guid_eq h.client_cast_id id)

unfoldable pub replace_held : PendingCast → List ℕ → Session → Session
replace_held p body s =
    let t = if held_differs s.spell_queue.held p.client_cast_id then discard_held true s else s in
    with_queue
      (record t.spell_queue {
        held =
            some (record {
              spell_id = p.spell_id;
              client_cast_id = p.client_cast_id;
              cast_body = body;
            });
      })
      t

-- `playerCastForward`: `none` is the held case, `some` the body to send now.
unfoldable pub retire : Attempt → ℕ → Session → Session
retire old now s =
    with_queue
      (record s.spell_queue {
        retired_spell_id = old.spell_id;
        retired_generation = old.generation;
        stale_spell_id = old.spell_id;
        stale_until = now + retry_fuse;
      })
      s

unfoldable pub send_now : PendingCast → List ℕ → ℕ → Session → Session × Option (List ℕ)
send_now p body now s =
    (activate p.spell_id p.client_cast_id body now (discard_held true s), some body)

unfoldable pub enqueue_against :
    Option Attempt → PendingCast → List ℕ → ℕ → Session → Session × Option (List ℕ)
enqueue_against none p body now s = send_now p body now s
enqueue_against (some old) p body now s =
    if guid_eq old.client_cast_id p.client_cast_id
    then send_now p body now s
    else (if old.spell_id == p.spell_id
        then (replace_held p body s, none)
        else send_now p body now (retire old now (discard_held true s)))

unfoldable pub enqueue_player_cast : PendingCast → List ℕ → ℕ → Session → Session × Option (List ℕ)
enqueue_player_cast p body now s = enqueue_against s.spell_queue.active p body now s

unfoldable pub promote_against : Option HeldCast → ℕ → Session → Session × Option (List ℕ)
promote_against none now s = (s, none)
promote_against (some h) now s =
    if pending_unstarted h.client_cast_id s
    then (activate h.spell_id h.client_cast_id h.cast_body now s, some h.cast_body)
    else (s, none)

unfoldable pub promote_held : ℕ → Session → Session × Option (List ℕ)
promote_held now s =
    promote_against s.spell_queue.held now (with_queue (record s.spell_queue { held = none }) s)

-- `trimPendingCastsLocked`. Its callers pass the limit 8; at 0 and an empty list Go would panic.
unfoldable pub drop_held : Guid128 → Session → Session
drop_held id s =
    if held_has s.spell_queue.held id
    then with_queue (record s.spell_queue { held = none }) s
    else s

unfoldable pub trim_loop : ℕ → List PendingCast → Session → Session
trim_loop limit [] s = record s { pending_casts = [] }
trim_loop limit (p ∷ ps) s =
    if leb limit (length (p ∷ ps))
    then trim_loop limit ps
        (abandon_cast p (drop_held p.client_cast_id (record s { pending_casts = ps })))
    else (record s { pending_casts = p ∷ ps })

unfoldable pub trim_pending_casts : ℕ → Session → Session
trim_pending_casts limit s = trim_loop limit s.pending_casts s

abbrev pub same_player_cast : Option Attempt → PendingCast → Bool
same_player_cast none p = false
same_player_cast (some a) p = p.pet_guid == 0 && guid_eq a.client_cast_id p.client_cast_id

abbrev pub failed_by : Option Attempt → PendingCast → Bool
failed_by none p = false
failed_by (some a) p =
    p.pet_guid == 0 && (guid_eq a.client_cast_id p.client_cast_id || a.spell_id == p.spell_id)

unfoldable pub complete_spell_queue_cast : PendingCast → ℕ → Session → Session × Option (List ℕ)
complete_spell_queue_cast p now s =
    if same_player_cast s.spell_queue.active p then promote_held now (end_active s) else (s, none)

unfoldable pub fail_spell_queue : PendingCast → ℕ → Session → Session × Option (List ℕ)
fail_spell_queue p now s =
    if failed_by s.spell_queue.active p then promote_held now (end_active s) else (s, none)

unfoldable pub mark_started : Attempt → Attempt
mark_started a = record a {
  started = true;
  retry_in_flight = false;
  need_retry = false;
  settled_seq = if leb a.retry_seq a.settled_seq then a.settled_seq else a.retry_seq;
}

abbrev pub marked : Option Attempt → Option Attempt
marked none = none
marked (some a) = some (mark_started a)

unfoldable pub mark_spell_queue_started : PendingCast → Session → Session
mark_spell_queue_started p s =
    if same_player_cast s.spell_queue.active p
    then with_queue (record s.spell_queue { active = marked s.spell_queue.active }) s
    else s

unfoldable pub queue_cast_matches : Option Attempt → Guid128 → ℕ → Bool
queue_cast_matches none id spell = false
queue_cast_matches (some a) id spell =
    if guid_eq id zero_guid
    then not (spell == 0) && a.spell_id == spell
    else guid_eq a.client_cast_id id

unfoldable pub reset_spell_queue : Session → Session
reset_spell_queue s =
    let t = discard_held false s in
    with_queue
      (record t.spell_queue {
        generation = next_u64 t.spell_queue.generation;
        active = none;
        retired_spell_id = 0;
        retired_generation = 0;
        stale_spell_id = 0;
        stale_until = 0;
      })
      t

abbrev pub cancelled : Option Attempt → Session → Session
cancelled none s = s
cancelled (some a) s = discard_held true (
    end_active (
      drop_pending_cast a.client_cast_id (
        with_queue
          (record s.spell_queue {
            retired_spell_id = a.spell_id;
            retired_generation = a.generation;
          })
          s)))

-- The result says whether the cancel is forwarded.
unfoldable pub cancel_spell_queue : Guid128 → ℕ → Session → Session × Bool
cancel_spell_queue id spell s =
    let matches = queue_cast_matches s.spell_queue.active id spell in
    if held_has s.spell_queue.held id && not matches
    then (drop_pending_cast id (discard_held false s), false)
    else (let t = if matches then cancelled s.spell_queue.active s else s in
        (drop_pending_cast id t, true))
