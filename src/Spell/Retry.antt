-- ===== src/Spell/Retry.antt =====
-- internal/proxy/spell_queue.go: retries and the failures that they answer.
use redscarf_proxy.Prelude.{
  ℕ, ◌+◌, ◌^◌, ◌≤◌, ◌<◌, ◌≡◌, ◌≢◌, refl, arith, Bool, true, false, List, Option, none, some, ◌⊎◌,
  inl, inr, Bool-cases, leb,
}
use redscarf_proxy.Spell.State.{
  PendingCast, Attempt, HeldCast, Session, next_u64, retry_fuse, spell_failed_not_ready,
}
use redscarf_proxy.Spell.Queue.{
  with_queue, end_active, activate, promote_against, promote_held, fail_spell_queue, failed_by,
}
use redscarf_proxy.Spell.Failure.{
  settle_failure, retryable_cast_failure, may_retry, resend, retry_against, retry_body_force,
  retry_spell_queue,
}

-- The attempt as it must be for a retry, and the session after it.
abbrev pub Resent : ℕ → Session → List ℕ → Session → Attempt → Type 0
Resent now s body t a =
    (s.spell_queue.active ≡ some a)
    × (a.started ≡ false)
    × (a.retry_in_flight ≡ false)
    × (a.need_retry ≡ true)
    × (now < a.retry_deadline)
    × (body ≡ a.cast_body)
    × (t ≡ with_queue (record s.spell_queue { active = some (resend now a) }) s)

retry_against-some :
    (o : Option Attempt) (force : Bool) (now : ℕ) (s : Session) (body : List ℕ)
    → s.spell_queue.active ≡ o
    → (retry_against o force now s).1 ≡ some body
    → (a : Attempt) × Resent now s body (retry_against o force now s).0 a
unfolding retry_against may_retry
retry_against-some none force now s body e h = cc
retry_against-some (some a) force now s body e h = elim (Bool-cases (may_retry force a now s)) [
  | inl yes_retry ↦
      (a, (e, ground arith, ground arith, ground arith, ground arith, ground arith, rw yes_retry))
  | inr no_retry ↦ absurd (ground arith)
]

-- A retry sends the body of the active attempt, which was neither started nor in flight and was
-- before its deadline; afterwards it is in flight, and nothing else of the session has changed.
pub retry_body_force-some :
    (force : Bool) (now : ℕ) (s : Session) (body : List ℕ)
    → (retry_body_force force now s).1 ≡ some body
    → (a : Attempt) × Resent now s body (retry_body_force force now s).0 a
unfolding retry_body_force
retry_body_force-some force now s body h =
    retry_against-some s.spell_queue.active force now s body refl h

-- The end of an attempt changes the generation, also when the held cast is promoted at once.
promote_against-generation :
    (o : Option HeldCast) (now : ℕ) (s : Session)
    → ((promote_against o now s).0.spell_queue.generation ≡ s.spell_queue.generation)
      ⊎ ((promote_against o now s).0.spell_queue.generation ≡ next_u64 s.spell_queue.generation)
unfolding promote_against activate
promote_against-generation none now s = inl refl
promote_against-generation (some h) now s = ground arith

retry_spell_queue_stale :
    (generation now : ℕ) (s : Session)
    → s.spell_queue.generation ≢ generation
    → retry_spell_queue generation now s ≡ (s, none)
unfolding retry_spell_queue
retry_spell_queue_stale generation now s h = ground arith

fail_spell_queue-generation :
    (p : PendingCast) (ended : ℕ) (s : Session)
    → s.spell_queue.generation < 2 ^ 64
    → failed_by s.spell_queue.active p ≡ true
    → (fail_spell_queue p ended s).0.spell_queue.generation ≢ s.spell_queue.generation
unfolding fail_spell_queue promote_held end_active
fail_spell_queue-generation p ended s bound h = rw h (
    ground (
      arith,
      promote_against-generation s.spell_queue.held ended
          (with_queue (record (end_active s).spell_queue { held = none }) (end_active s)),
    ))

-- A retry timer that was set for an attempt which has failed since sends nothing and changes
-- nothing, also when the held cast has taken the attempt's place.
pub retry_spell_queue-fail_spell_queue :
    (p : PendingCast) (ended now : ℕ) (s : Session)
    → s.spell_queue.generation < 2 ^ 64
    → failed_by s.spell_queue.active p ≡ true
    → let t = (fail_spell_queue p ended s).0 in
      retry_spell_queue s.spell_queue.generation now t ≡ (t, none)
retry_spell_queue-fail_spell_queue p ended now s bound h =
    retry_spell_queue_stale s.spell_queue.generation now (fail_spell_queue p ended s).0
      (fail_spell_queue-generation p ended s bound h)

-- What becomes of an attempt, and whether the failure is swallowed.
abbrev pub RefusedBy : ℕ → Attempt → Attempt × Bool → Type 0
RefusedBy now a (b, swallowed) =
    ((a.started ≡ true) × (swallowed ≡ true) × (b ≡ record a { need_retry = false }))
    ⊎ ((a.started ≡ false) × (a.retry_seq ≤ a.settled_seq) × (swallowed ≡ true) × (b ≡ a))
    ⊎ ((a.started ≡ false)
        × (a.settled_seq < a.retry_seq)
        × (b.settled_seq ≡ a.retry_seq)
        × (b.retry_in_flight ≡ false)
        × (b.need_retry ≡ swallowed)
        × (((swallowed ≡ true)
              × (now < a.retry_deadline)
              × ((a.retry_in_flight ≡ false)
                  ⊎ (a.retry_seq ≤ 1)
                  ⊎ (a.last_retry_at + retry_fuse ≤ now)))
            ⊎ ((swallowed ≡ false)
                × ((a.retry_deadline ≤ now)
                    ⊎ ((1 < a.retry_seq) × (now < a.last_retry_at + retry_fuse))))))

-- The server's NOT_READY to an attempt that has started, or whose sends are all settled, is
-- swallowed and asks for no retry. Any other settles the send that it answers: it is swallowed and
-- asks for a retry only before the deadline, and not in answer to a retry of less than a fuse ago;
-- it is delivered only after the deadline, or in answer to such a retry.
pub settle_failure-RefusedBy :
    (now : ℕ) (a : Attempt) → RefusedBy now a (settle_failure spell_failed_not_ready now a)
unfolding settle_failure retryable_cast_failure
settle_failure-RefusedBy now a = elim (Bool-cases a.started) [
  | inl e ↦ rw e (inl (refl, refl, refl))
  | inr e ↦ elim (Bool-cases (leb a.retry_seq a.settled_seq)) [
    | inl old ↦ rw (e, old) (inr (inl (refl, ground arith, refl, refl)))
    | inr new ↦ rw (e, new) (inr (inr (ground arith)))
  ]
]
