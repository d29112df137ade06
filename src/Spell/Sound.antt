-- ===== src/Spell/Sound.antt =====
-- internal/proxy/spell_queue.go: the bookkeeping of the active attempt, operation by operation.
use redscarf_proxy.Prelude.{
  ℕ, ◌+◌, ◌*◌, ◌≤◌, ◌<◌, ◌≡◌, refl, arith, Bool, true, false, List, [], ◌∷◌, Option, none, some,
  ◌⊎◌, inl, inr, Option-cases,
}
use redscarf_proxy.Guid.{Guid128}
use redscarf_proxy.Spell.State.{PendingCast, Attempt, HeldCast, Session, retry_lifetime, retry_fuse}
use redscarf_proxy.Spell.Pending.{remove_pending_cast}
use redscarf_proxy.Spell.Queue.{
  end_active, abandon_cast, abandon_found, discard_held, new_attempt, activate, replace_held,
  retire, send_now, enqueue_against, promote_against, drop_held, trim_loop, mark_started,
}
use redscarf_proxy.Spell.Failure.{settle_failure, note_started, may_retry, resend, retry_against}

-- At the time `clock`: a send is in flight exactly until it is settled, a retry is wanted only of
-- a settled send, and each send after the second came a fuse after the one before it.
pub record IsSound (clock : ℕ) (a : Attempt) : Type 0 where
  pub deadline : a.retry_deadline ≡ a.created_at + retry_lifetime
  pub sent : 1 ≤ a.retry_seq
  pub flight :
      ((a.retry_in_flight ≡ true) × (a.settled_seq < a.retry_seq))
      ⊎ ((a.retry_in_flight ≡ false) × (a.settled_seq ≡ a.retry_seq))
  pub wanting : (a.need_retry ≡ false) ⊎ (a.retry_in_flight ≡ false)
  pub past : a.last_retry_at ≤ clock
  pub ordered : a.created_at ≤ a.last_retry_at
  pub in_time : a.last_retry_at < a.retry_deadline
  pub spaced : a.created_at + a.retry_seq * retry_fuse ≤ a.last_retry_at + 2 * retry_fuse
  pub cooled : (a.need_retry ≡ false) ⊎ (a.retry_seq ≡ 1) ⊎ (a.last_retry_at + retry_fuse ≤ clock)

abbrev pub ActiveIsSound : ℕ → Option Attempt → Type 0
ActiveIsSound clock none = Unit {0}
ActiveIsSound clock (some a) = IsSound clock a

-- A sound attempt was sent at most 31 times.
pub sends-le : (clock : ℕ) (a : Attempt) → IsSound clock a → a.retry_seq ≤ 31
sends-le clock a h = omega arith

pub new_attempt-IsSound :
    (g spell : ℕ) (id : Guid128) (body : List ℕ) (now : ℕ)
    → IsSound now (new_attempt g spell id body now)
unfolding new_attempt
new_attempt-IsSound g spell id body now = ground arith

pub later-IsSound : (clock now : ℕ) (a : Attempt) → clock ≤ now → IsSound clock a → IsSound now a
later-IsSound clock now a h v = ground arith

pub settle_failure-IsSound :
    (reason now : ℕ) (a : Attempt) → IsSound now a → IsSound now (settle_failure reason now a).0
unfolding settle_failure
settle_failure-IsSound reason now a v = ground arith

pub note_started-IsSound :
    (found : Option PendingCast) (now : ℕ) (a : Attempt)
    → IsSound now a
    → IsSound now (note_started found a)
unfolding note_started
note_started-IsSound found now a v = ground arith

pub mark_started-IsSound : (now : ℕ) (a : Attempt) → IsSound now a → IsSound now (mark_started a)
unfolding mark_started
mark_started-IsSound now a v = ground arith

pub resend-IsSound :
    (force : Bool) (now : ℕ) (a : Attempt) (s : Session)
    → IsSound now a
    → may_retry force a now s ≡ true
    → IsSound now (resend now a)
unfolding may_retry resend
resend-IsSound force now a s v h = ground (arith, sends-le now a v)

-- The operations that leave the active attempt alone, or end it.
abbrev pub KeptOrEnded : Session → Session → Type 0
KeptOrEnded s t = (t.spell_queue.active ≡ s.spell_queue.active) ⊎ (t.spell_queue.active ≡ none)

pub kept_or_ended :
    (now : ℕ) (s t : Session)
    → KeptOrEnded s t
    → ActiveIsSound now s.spell_queue.active
    → ActiveIsSound now t.spell_queue.active
kept_or_ended now s t (inl e) v = rw e v
kept_or_ended now s t (inr e) v = rw e tt

abandon_cast-kept : (p : PendingCast) (s : Session) → KeptOrEnded s (abandon_cast p s)
unfolding abandon_cast end_active
abandon_cast-kept p s = ground arith

abandon_found-kept :
    (fail_client : Bool) (r : Session × Option PendingCast)
    → KeptOrEnded r.0 (abandon_found fail_client r)
unfolding abandon_found
abandon_found-kept fail_client (s, none) = inl refl
abandon_found-kept true (s, some p) = abandon_cast-kept p s
abandon_found-kept false (s, some p) = inl refl

pub discard_held-kept :
    (fail_client : Bool) (s : Session) → KeptOrEnded s (discard_held fail_client s)
unfolding discard_held remove_pending_cast
discard_held-kept fail_client s = elim (Option-cases s.spell_queue.held) [
  | inl e ↦ rw (e, discard_held) (inl refl)
  | inr (h, e) ↦ rw (e, discard_held) (abandon_found-kept fail_client _)
]

replace_held-kept :
    (p : PendingCast) (body : List ℕ) (s : Session) → KeptOrEnded s (replace_held p body s)
unfolding replace_held
replace_held-kept p body s = ground (arith, discard_held-kept true s)

pub trim_loop-kept :
    (limit : ℕ) (ps : List PendingCast) (s : Session) → KeptOrEnded s (trim_loop limit ps s)
unfolding trim_loop drop_held
trim_loop-kept limit [] s = inl refl
trim_loop-kept limit (p ∷ ps) s =
    let t = drop_held p.client_cast_id (record s { pending_casts = ps }) in
    ground (arith, abandon_cast-kept p t, trim_loop-kept limit ps (abandon_cast p t))

module _ (now : ℕ) where
  activate-active :
      (spell : ℕ) (id : Guid128) (body : List ℕ) (s : Session)
      → ActiveIsSound now (activate spell id body now s).spell_queue.active
  unfolding activate
  activate-active spell id body s = new_attempt-IsSound _ spell id body now

  send_now-active :
      (p : PendingCast) (body : List ℕ) (s : Session)
      → ActiveIsSound now (send_now p body now s).0.spell_queue.active
  unfolding send_now
  send_now-active p body s = activate-active _ _ _ _

  pub enqueue_against-active :
      (old : Option Attempt) (p : PendingCast) (body : List ℕ) (s : Session)
      → ActiveIsSound now s.spell_queue.active
      → ActiveIsSound now (enqueue_against old p body now s).0.spell_queue.active
  unfolding enqueue_against
  enqueue_against-active none p body s v = send_now-active p body s
  enqueue_against-active (some old) p body s v = ground (
    arith,
    send_now-active p body s,
    kept_or_ended now s _ (replace_held-kept p body s) v,
    send_now-active p body (retire old now (discard_held true s)),
  )

  pub promote_against-active :
      (h : Option HeldCast) (s : Session)
      → ActiveIsSound now s.spell_queue.active
      → ActiveIsSound now (promote_against h now s).0.spell_queue.active
  unfolding promote_against
  promote_against-active none s v = v
  promote_against-active (some h) s v =
      ground (arith, activate-active h.spell_id h.client_cast_id h.cast_body s)

  pub retry_against-active :
      (o : Option Attempt) (force : Bool) (s : Session)
      → ActiveIsSound now s.spell_queue.active
      → ActiveIsSound now o
      → ActiveIsSound now (retry_against o force now s).0.spell_queue.active
  unfolding retry_against
  retry_against-active none force s v w = v
  retry_against-active (some a) force s v w = ground (arith, resend-IsSound force now a s w)
